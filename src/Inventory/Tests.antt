-- ===== src/Inventory/Tests.antt =====
-- The laws of the stock participant at concrete rows.
use jcool_ecommerce_backend.Base.{
  ◌+◌, refl, none, some, List, [], ◌∷◌, leb, ◌==◌, if◌then◌else◌, arith,
}
use jcool_ecommerce_backend.Inventory.Fence.{ReservationFenceOp}
use jcool_ecommerce_backend.Inventory.Tx.{World}
use jcool_ecommerce_backend.Inventory.Stock.Holds.{Fits}
use jcool_ecommerce_backend.Inventory.Participant.{Service, LockStrategy, CommandOp}
use jcool_ecommerce_backend.Inventory.Participant.NoOversell.{Request, serve, serve-Fits}

abbrev five_ops : List ReservationFenceOp
five_ops =
    ReservationFenceOp.try ∷ ReservationFenceOp.try ∷ ReservationFenceOp.commit
    ∷ ReservationFenceOp.release ∷ ReservationFenceOp.restock ∷ []

abbrev service : Service
service = record {
  env = record {
    clock = λ reads. 1000 + reads;
    precedes = leb;
    max_retries = 3;
    others = λ _ db. db;
  };
  budget_ms = 5000;
  strategy = LockStrategy.pessimistic;
}

-- Three pieces of variant 1.
abbrev shelf : World
shelf = record {
  db = record {
    levels = λ v. if v == 1 then some (record { on_hand = 3; reserved = 0; version = 0 }) else none;
    reservations = [];
    headers = λ _. none;
  };
  reads = 0;
}

shelf-Fits : Fits 1 shelf.db
shelf-Fits = record { balanced = refl; bounded = omega arith; unique = tt }

-- The second order asks for more than the first one leaves.
abbrev rush : List Request
rush =
    Request.try_request 7 (record { variant_id = 1; quantity = 2 } ∷ []) 9000
    ∷ Request.try_request 8 (record { variant_id = 1; quantity = 2 } ∷ []) 9000
    ∷ Request.command_request CommandOp.commit 7
    ∷ []

serve-Fits_example : Fits 1 (serve service (λ n. some (100 ∷ 101 ∷ [])) rush shelf).db
serve-Fits_example = serve-Fits service (λ n. some (100 ∷ 101 ∷ [])) rush shelf 1 refl shelf-Fits
