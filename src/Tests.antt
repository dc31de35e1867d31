-- ===== src/Tests.antt =====
-- Runs of the definitions on concrete inputs, and the theorems at such inputs.
mod Recovery
mod Autosave
mod Target
mod Canvas
mod Controller
mod Alert
mod SceneLink
mod Reaper
mod Endpoint
mod Config
mod Registry
mod VerticalRecord
mod ItemActions
mod VerticalTransition
