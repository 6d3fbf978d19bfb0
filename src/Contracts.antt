-- ===== src/Contracts.antt =====
-- The messages of the bus (libs/contracts/src/pil_contracts): events.py and commands.py. Times are
-- microseconds since datetime.min in UTC, so no time is negative; scores are thousandths; a JSON
-- object that no service looks into is its text.
mod Telegram
mod Analysis
mod Processing
pub use Telegram.*
pub use Analysis.*
pub use Processing.*
