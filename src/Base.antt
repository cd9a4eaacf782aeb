-- ===== src/Base.antt =====
-- The names that the other modules share: the libraries', passed on, and those of the children.
pub mod Results
pub mod Lists
pub mod Tests
pub mod HashMap
pub mod Keys
pub mod Loop
pub mod Buffer
pub mod Text
pub use Prim.Native.Nat.{ℕ, zero, suc, ◌+◌, ◌-◌, ◌*◌, ◌/◌, ◌%◌, ◌^◌, ◌≤◌, ◌<◌, min}
pub use mathlib.Core.Path.{◌≡◌, refl, sym, ap, subst, ◌∙◌}
pub use mathlib.Core.Logic.{◌≢◌, ◌↔◌, ◌⊎◌, inl, inr}
pub use mathlib.Core.Bool.{Bool, true, false, not, ◌&&◌, ◌||◌}
pub use mathlib.Core.Option.{Option, none, some}
pub use mathlib.Core.List.{List, [], ◌∷◌, ◌++◌, map}
pub use native.Mathlib.Omega.{arith}
pub use Tests.{
  ltb, leb, ◌==◌, if◌then◌else◌, ltb→lt, lt→ltb, leb→le, le→leb, ==→eq, ==-refl, ne→==, Bool-cases,
  Option-cases,
}
pub use Lists.{
  length, get_elem?, take, drop, length-append, take-append, take-all, length-take, take-append_le,
  drop-append, All, any, filter_by,
}
pub use Keys.{Lacks, Distinct}
pub use Results.{
  Outcome, ok, err, panic, ErrorKind, Io, ◌>>=◌, ◌>>◌, map_err, unwrap, Outcome-cases,
}
