-- ===== src/Web.antt =====
-- What the adapters and the endpoints share: JSON values, addresses, UUIDs and the answers of HTTP
-- requests. They are Python's standard library as the program calls it (`json`, `urllib.parse`,
-- `uuid`), and the responses of `httpx`.
pub mod Text
pub mod Json
pub mod Made
pub mod Urls
pub mod Uuid
pub mod Unslashed
