-- ===== src/Cmd/Policy/Cookies.antt =====
-- Cookies in the clear stay on this machine.
