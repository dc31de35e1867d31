-- ===== src/Tests/Controller.antt =====
-- src/pipeline/OutputController.cpp on concrete runs.
mod Runs
mod Witnesses
