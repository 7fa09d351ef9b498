-- ===== src/Net/NetUrl/Whole.antt =====
-- `encode` and `parse` of a whole URL (engine/net/neturl.h).
use cxxprogram.Prelude.{[], false, suc, zero, ℕ, ◌<◌, ◌==◌, ◌^◌, ◌∷◌, ◌≡◌}
use cxxprogram.Prelude.Decimal.{decimal}
use cxxprogram.Net.NetUrl.{Text, Params, NetUrl}
use cxxprogram.Net.NetUrl.Orders.{AllPlain, IsDistinct}

-- Text without the character `c`.
abbrev pub Lacks : ℕ → Text → Type 0
Lacks c [] = Unit {0}
Lacks c (x ∷ s) = ((x == c) ≡ false) × Lacks c s

-- The port as `encode` writes it.
abbrev port_text : ℕ → Text
port_text zero = []
port_text (suc n) = 58 ∷ decimal (suc n)

-- A URL whose parts `encode` keeps apart.
pub record IsUrl (u : NetUrl) : Type 0 where
  pub plain_protocol : Lacks 58 u.protocol
  pub no_port : Lacks 58 u.host
  pub no_query : Lacks 63 u.host
  pub small_port : u.port < 2 ^ 16
  pub plain : AllPlain u.params
  pub distinct : IsDistinct u.params
