-- ===== src/Auth.antt =====
-- The session of the panel: cookies, the store that mirrors them, the request interceptor, the
-- handling of failed requests, signing in and out.
pub mod Cookies
pub mod Jar
pub mod Store
pub mod Requests
pub mod Errors
pub mod SignIn
pub mod Leaving
pub mod Synced
pub mod Expiry
mod Tests
