-- ===== src/Store.antt =====
-- The database behind `PrismaService` (src/prisma/prisma.service.ts, prisma/schema.prisma), the
-- Redis cache, and the calls that read and write them.
mod Enums
mod Columns
mod Rows
mod Environment
mod Monad
pub mod Keeps
unfoldable pub use Enums.*
unfoldable pub use Columns.*
pub use Rows.*
pub use Environment.*
unfoldable pub use Monad.*
