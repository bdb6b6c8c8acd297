-- ===== src/Client/Contract.antt =====
-- `S3Client` keeps the whole contract of `S3ClientAPI`.
