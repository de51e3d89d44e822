-- ===== src/Cart/Tests.antt =====
-- A cart at concrete requests.
use jcool_ecommerce_backend.Base.{refl, ◌==◌, none, some, List, [], ◌∷◌, if◌then◌else◌, arith, true}
use jcool_ecommerce_backend.Cart.{CartDb, CartCall, adds, sets, removes, clears, call_all}
use jcool_ecommerce_backend.Cart.Lines.{Distinct}
use jcool_ecommerce_backend.Cart.Bounds.{InBounds, call_all-InBounds}

abbrev no_carts : CartDb
no_carts = λ user. none

abbrev some_requests : List CartCall
some_requests =
    adds (λ sku. true) 1 70 8
    ∷ adds (λ sku. true) 1 70 5
    ∷ adds (λ sku. sku == 70) 1 71 2
    ∷ sets 2 70 3
    ∷ removes 1 70
    ∷ clears 1
    ∷ []

empty_bounds : InBounds no_carts
unfolding Distinct
empty_bounds user = (tt, tt, omega arith)

call_all-InBounds_example : InBounds (call_all some_requests no_carts)
call_all-InBounds_example =
    call_all-InBounds some_requests no_carts (refl, (refl, (refl, (refl, (tt, (tt, tt))))))
      empty_bounds

abbrev one_cart : CartDb
one_cart = λ user. if user == 1 then some (record { sku_id = 70; quantity = 8 } ∷ []) else none
