-- ===== src/Catalog.antt =====
-- Prices in other currencies: their amounts (Amounts), the task that recomputes them (Sync), and
-- what the task keeps (Kept, Stable).
pub mod Amounts
pub mod Sync
pub mod Kept
pub mod Stable
