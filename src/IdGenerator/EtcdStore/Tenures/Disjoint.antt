-- ===== src/IdGenerator/EtcdStore/Tenures/Disjoint.antt =====
-- No two tenures of a node of apps/id-service stamp the same timestamp.
use jcool_ecommerce_backend.Base.{ℕ, Option, none, List, [], ◌∷◌, ◌<◌, All}
use jcool_ecommerce_backend.IdGenerator.EtcdStore.{FloorKey}
use jcool_ecommerce_backend.IdGenerator.EtcdStore.Tenures.{Tenure, NodeHistory}
use jcool_ecommerce_backend.IdGenerator.EtcdStore.Tenures.Coherent.{IsCoherent}
use jcool_ecommerce_backend.IdGenerator.EtcdStore.Tenures.Fresh.{IsTracked}

abbrev Coherent : NodeHistory → Type 0
Coherent h = IsCoherent h.keys h.seen h.tenures × IsTracked h.keys h.under_way

-- Every timestamp that an earlier tenure stamped is below every one that a later tenure stamped.
unfoldable pub Separate : List Tenure → Type 0
Separate [] = Unit
Separate (t ∷ ts) = All (λ u. All (λ a. All (λ b. a < b) t.stamped) u.stamped) ts × Separate ts

-- A node that nobody holds, with a floor key that was written before.
abbrev pub unheld : Option FloorKey → ℕ → NodeHistory
unheld floor revision = record {
  keys = record { entry = record { owner = none; floor = floor }; revision = revision };
  seen = [];
  under_way = λ generation. none;
  tenures = [];
}
