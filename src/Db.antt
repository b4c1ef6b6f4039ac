-- ===== src/Db.antt =====
-- The database behind `PrismaService` (apps/api/src/database/prisma.service.ts): the tables of
-- apps/api/prisma/schema.prisma that the modelled services read and write, and a service call as
-- an action on them.
mod Types
mod Keys
mod Tables
mod Monad
unfoldable pub use Types.*
unfoldable pub use Keys.*
pub use Tables.*
pub use Monad.*
