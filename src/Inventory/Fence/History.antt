-- ===== src/Inventory/Fence/History.antt =====
-- What the fence makes of a sequence of commands to one order, in the order in which they get the
-- header's lock.
use jcool_ecommerce_backend.Base.{ℕ, ◌+◌, ◌≡◌, Bool, true, false, Option, none, some, List, [], ◌∷◌}
use jcool_ecommerce_backend.Inventory.Fence.{
  ReservationOrderStatus, ReservationFenceOp, ReservationFenceDecision, decide_reservation_fence,
}

abbrev next_header :
    Option ReservationOrderStatus → ReservationFenceDecision → Option ReservationOrderStatus
next_header header (ReservationFenceDecision.apply next) = some next
next_header header _ = header

-- How often a command was applied, by its operation, and whether a caller was ever told that it is
-- done, by applying it or by an idempotent answer.
pub record Applied : Type 0 where
  pub tries : ℕ
  pub commits : ℕ
  pub releases : ℕ
  pub restocks : ℕ
  pub told_try : Bool
  pub told_commit : Bool
  pub told_release : Bool
  pub told_restock : Bool

abbrev pub none_applied : Applied
none_applied = record {
  tries = 0;
  commits = 0;
  releases = 0;
  restocks = 0;
  told_try = false;
  told_commit = false;
  told_release = false;
  told_restock = false;
}

abbrev bump : ReservationFenceOp → Applied → Applied
bump ReservationFenceOp.try n = record n { tries = n.tries + 1 }
bump ReservationFenceOp.commit n = record n { commits = n.commits + 1 }
bump ReservationFenceOp.release n = record n { releases = n.releases + 1 }
bump ReservationFenceOp.restock n = record n { restocks = n.restocks + 1 }

abbrev tell : ReservationFenceOp → Applied → Applied
tell ReservationFenceOp.try n = record n { told_try = true }
tell ReservationFenceOp.commit n = record n { told_commit = true }
tell ReservationFenceOp.release n = record n { told_release = true }
tell ReservationFenceOp.restock n = record n { told_restock = true }

abbrev count : ReservationFenceOp → ReservationFenceDecision → Applied → Applied
count op (ReservationFenceDecision.apply _) n = tell op (bump op n)
count op ReservationFenceDecision.idempotent n = tell op n
count op ReservationFenceDecision.conflict n = n

unfoldable pub history :
    Option ReservationOrderStatus
    → Applied
    → List ReservationFenceOp
    → Option ReservationOrderStatus × Applied
history header n [] = (header, n)
history header n (op ∷ ops) =
    let d = decide_reservation_fence op header in history (next_header header d) (count op d n) ops

-- What was applied to an order whose header reads so, and what its callers were told.
abbrev pub Explains : Option ReservationOrderStatus → Applied → Type 0
Explains none n = n ≡ none_applied
Explains (some ReservationOrderStatus.held) n =
    n ≡ record none_applied { tries = 1; told_try = true }
Explains (some ReservationOrderStatus.committed) n =
    n ≡ record none_applied { tries = 1; commits = 1; told_try = true; told_commit = true }
Explains (some ReservationOrderStatus.released) n =
    n ≡ record none_applied { tries = 1; releases = 1; told_try = true; told_release = true }
Explains (some ReservationOrderStatus.fenced) n =
    n ≡ record none_applied { releases = 1; told_release = true }
Explains (some ReservationOrderStatus.restocked) n = n ≡ record none_applied {
  tries = 1;
  commits = 1;
  restocks = 1;
  told_try = true;
  told_commit = true;
  told_restock = true;
}
