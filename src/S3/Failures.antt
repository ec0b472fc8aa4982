-- ===== src/S3/Failures.antt =====
-- crates/openlake_server/src/s3/error.rs: what a client sees of an error. The messages are left out.
use openlake.Prelude.{ℕ, String}
use openlake.Errors.{
  StorageError, bucket_not_found, bucket_already_exists, bucket_not_empty, object_not_found,
  version_not_found, invalid_bucket_name, invalid_object_key, lock_timeout, lock_lost,
  inconsistent_meta, insufficient_online_drives, io_error,
}
use openlake.Auth.Failures.{AuthError, status_and_code}

pub data AppError : Type 0 where
  auth : AuthError → AppError
  storage : StorageError → AppError
  bad_request malformed not_implemented : String → AppError

-- The status and the code that `map_storage` gives.
unfoldable pub map_storage : StorageError → ℕ × String
map_storage (object_not_found b k) = (404, "NoSuchKey")
map_storage (version_not_found b k v) = (404, "NoSuchVersion")
map_storage (bucket_not_found b) = (404, "NoSuchBucket")
map_storage (bucket_already_exists b) = (409, "BucketAlreadyExists")
map_storage (bucket_not_empty b) = (409, "BucketNotEmpty")
map_storage (invalid_bucket_name b) = (400, "InvalidBucketName")
map_storage (invalid_object_key k) = (400, "InvalidObjectName")
map_storage (lock_timeout k) = (503, "SlowDown")
map_storage (lock_lost k) = (503, "SlowDown")
map_storage (insufficient_online_drives b k m) = (503, "ServiceUnavailable")
map_storage (inconsistent_meta b k m) = (503, "ServiceUnavailable")
map_storage (io_error e) = (500, "InternalError")

-- The status and the code of `into_response`.
unfoldable pub response_of : AppError → ℕ × String
unfolding map_storage status_and_code
response_of (auth e) = status_and_code e
response_of (storage e) = map_storage e
response_of (bad_request m) = (400, "BadRequest")
response_of (malformed m) = (400, "MalformedRequest")
response_of (not_implemented m) = (501, "NotImplemented")

-- `storage_error_to_s3_code`, in crates/openlake_server/src/s3/handlers/objects.rs
unfoldable pub storage_error_to_s3_code : StorageError → String
storage_error_to_s3_code (object_not_found b k) = "NoSuchKey"
storage_error_to_s3_code (version_not_found b k v) = "NoSuchVersion"
storage_error_to_s3_code (bucket_not_found b) = "NoSuchBucket"
storage_error_to_s3_code (invalid_object_key k) = "InvalidArgument"
storage_error_to_s3_code (lock_timeout k) = "SlowDown"
storage_error_to_s3_code (insufficient_online_drives b k m) = "ServiceUnavailable"
storage_error_to_s3_code _ = "InternalError"
