-- ===== src/Tests.antt =====
-- Examples at concrete values: the requests of a client to the scripted server of `Sample`.
mod Setting
mod Texts
mod Requests
mod Signing
mod Buckets
mod Objects
mod Programs
mod Stores
mod Uploads
