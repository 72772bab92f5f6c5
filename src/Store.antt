-- ===== src/Store.antt =====
-- src/clients: the object store. Its client is src/clients/s3_client.py.
pub mod Heavy
pub mod Client
