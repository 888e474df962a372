-- ===== src/Domain.antt =====
-- internal/pkg/domain: the types shared by every package. Closed string types are enumerations,
-- an optional value is an `Option`, and times and ids are numbers.
pub mod Kind
pub mod Path
pub mod Plan
pub mod Media
pub mod Transform
