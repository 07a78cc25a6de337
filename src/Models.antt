-- ===== src/Models.antt =====
-- db/models.py, adapters/base.py and config.py: the data that the components share. Times are
-- microseconds, the resolution of Python's `datetime`; ids, message ids and sizes are native numbers.
mod Enums
mod Values
mod Rows
mod Tables
pub use Enums.*
pub use Values.*
pub use Rows.*
unfoldable pub use Tables.*
