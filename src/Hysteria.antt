-- ===== src/Hysteria.antt =====
-- internal/hysteria2: the share URI.
pub mod Hop
pub mod Strip
pub mod Pin
pub mod Outbound
