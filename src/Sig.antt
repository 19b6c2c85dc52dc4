-- ===== src/Sig.antt =====
-- The directory SigServer: the directory of connections and what a connection does.
pub mod Define
pub mod Wire
pub mod Manager
pub mod Connection
mod Tests
