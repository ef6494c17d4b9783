-- ===== src/Auth.antt =====
-- `pmcluster/internal/auth`, and the users of `pmcluster/internal/store/users.go`.
pub mod Token
pub mod Users
pub mod Bearer
