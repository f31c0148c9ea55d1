-- ===== src/Controller.antt =====
-- controller/: the jobs that the controller runs on other machines.
pub mod StepRunner
pub mod Provisioner
pub mod WorkerUpdater
pub mod AssetSyncer
pub mod RerunCoordinator
pub mod HarborYaml
