-- ===== src/Workflow/Routers.antt =====
-- The routers of app/workflows/graph/routers.py, which name the branch that a graph takes, and the
-- registry of app/services/workflow_service.py. A state is `state.data`, a dictionary value.
pub mod Guards
pub mod Pod
pub mod Driver
pub mod Tendering
pub mod Appointment
pub mod Known
pub mod Registry
