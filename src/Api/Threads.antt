-- ===== src/Api/Threads.antt =====
-- The models whose load threads are running.
use pi_ssm.Base.{
  String, Bool, true, false, ◌||◌, List, [], ◌∷◌, ◌++◌, ◌≡◌, refl, ap, arith, ◌==◌, eq_refl, map,
  contains, false≢true,
}
use pi_ssm.Dispatch.{DispatchPlan}

abbrev pub is_running : String → List (String × DispatchPlan) → Bool
is_running name threads = contains name (map (λ t. t.0) threads)

pub running_append :
    (k name : String) (before after : List (String × DispatchPlan)) (plan : DispatchPlan)
    → (name == k) ≡ false
    → is_running k (before ++ (name, plan) ∷ after) ≡ is_running k (before ++ after)
running_append k name [] after plan other = rw other refl
running_append k name ((j, p) ∷ before) after plan other =
    ap (λ (b : Bool). (j == k) || b) (running_append k name before after plan other)

pub running_last :
    (name : String) (threads : List (String × DispatchPlan)) (plan : DispatchPlan)
    → is_running name (threads ++ (name, plan) ∷ []) ≡ true
running_last name [] plan = rw eq_refl refl
running_last name ((j, p) ∷ threads) plan = ground (arith, running_last name threads plan)

pub running_more :
    (k name : String) (threads : List (String × DispatchPlan)) (plan : DispatchPlan)
    → is_running k threads ≡ true
    → is_running k (threads ++ (name, plan) ∷ []) ≡ true
running_more k name [] plan h = absurd (false≢true h)
running_more k name ((j, p) ∷ threads) plan h = ground (arith, running_more k name threads plan)
