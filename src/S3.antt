-- ===== src/S3.antt =====
-- crates/openlake_server/src/s3: the handlers of the S3 front end.
pub mod Failures
pub mod Range
pub mod Serve
pub mod Ranged
pub mod Upload
pub mod UploadFacts
mod Examples
