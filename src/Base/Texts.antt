-- ===== src/Base/Texts.antt =====
-- Texts: equality and concatenation under names that do not clash with those of numbers and lists,
-- and Python's truth of an optional text.
pub use text.Mathlib.Text.{◌==◌ as ◌=s=◌}
pub use Prim.Native.String.{◌++◌ as ◌<>◌}
use Prim.Native.String.{String}
use mathlib.Core.Path.{◌≡◌}
use mathlib.Core.Logic.{◌≢◌}
use native.Mathlib.Omega.{arith}
use text.Mathlib.TextEquality.{eq_iff}
use mathlib.Core.Bool.{Bool, false, not}
use mathlib.Core.Option.{Option, none, some}
use trust_shield.Base.Tests.{if◌then◌else◌}

-- `bool(s)`
abbrev pub truthy : String → Bool
truthy s = not (s =s= "")

-- `bool(x)` where `x` may be `None`
abbrev pub is_set : Option String → Bool
is_set none = false
is_set (some s) = truthy s

-- `x or d`
abbrev pub or_text : Option String → String → String
or_text none d = d
or_text (some s) d = if truthy s then s else d

-- Two texts that compare as different are different.
pub text_ne : (s t : String) → (s =s= t) ≡ false → s ≢ t
text_ne s t h = ground (arith, eq_iff s t)
