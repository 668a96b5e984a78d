-- ===== src/Registry.antt =====
-- The registry of worker nodes: AiDist/3 Registry_NofeInfo.h to AiDist/5. Registry_Server.cpp.
pub mod NodeInfo
pub mod Manager
pub mod Server
