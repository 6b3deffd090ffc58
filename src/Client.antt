-- ===== src/Client.antt =====
-- minioclient.h and minioclient.cpp: class `MinioClient`, by its groups of methods.
pub mod Construct
pub mod Request
pub mod Execute
pub mod Bucket
pub mod Object
pub mod Sends
pub mod History
