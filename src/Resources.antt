-- ===== src/Resources.antt =====
-- resources.py: the builders of Kubernetes resources.
pub mod Gpu
pub mod Accelerator
pub mod Pod
pub mod Datasets
pub mod Inference
pub mod Training
