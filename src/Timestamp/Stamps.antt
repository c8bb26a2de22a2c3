-- ===== src/Timestamp/Stamps.antt =====
-- `Proxy`, `Dynamic`, `Fixed` and `Lazy` of include/Timestamp.h, and their printing.
use dynalog.Base.{ℕ}
use dynalog.Base.Int.{ℤ}
use dynalog.Timestamp.Atoms.{Tm, decompose, coarse}
use dynalog.Timestamp.Stream.{Stream}
use dynalog.Timestamp.Format.{Functor}

-- A proxy calls the formatter that it refers to.
pub record Proxy : Type 0 where
  pub impl : Functor

unfoldable pub call_proxy : Proxy → Functor
call_proxy proxy stream atoms = proxy.impl stream atoms

-- `Dynamic`: the call of a wrapped formatter through the interface.
unfoldable pub dynamic : Functor → Functor
dynamic format stream atoms = format stream atoms

pub record Fixed : Type 0 where
  pub format : Functor
  pub time : ℤ

pub record Lazy : Type 0 where
  pub format : Functor

-- A timestamp of now, by the clock's seconds and nanoseconds.
unfoldable pub create_fixed : Functor → ℤ → ℕ → Fixed
create_fixed format tv_sec tv_nsec = record { format = format; time = coarse tv_sec tv_nsec }

unfoldable pub print_fixed : (ℤ → Tm) → Stream → Fixed → Stream
print_fixed gmtime stream stamp = stamp.format stream (decompose gmtime stamp.time)

unfoldable pub print_lazy : (ℤ → Tm) → ℤ → ℕ → Stream → Lazy → Stream
print_lazy gmtime tv_sec tv_nsec stream stamp =
    stamp.format stream (decompose gmtime (coarse tv_sec tv_nsec))
