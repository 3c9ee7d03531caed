-- ===== src/Liquidity.antt =====
-- src/domain/liquidity_detectors.py: sweeps, large prints and pulses of the order flow.
pub mod Alerts
pub mod Spacing
pub mod Spaced
pub mod Sweep
pub mod Print
pub mod Pulse
pub mod Bank
mod Examples
