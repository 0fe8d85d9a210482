-- ===== src/LuaThread/Kept.antt =====
-- Running a task leaves its coroutine as it is.
use event_server.Base.{
  ℕ, ◌≡◌, refl, Bool, true, false, Option, none, some, List, [], ◌∷◌, arith, length, add_size,
  if◌then◌else◌, ◌==◌,
}
use event_server.Base.Memory.{◌>>=◌}
use event_server.FastBuf.{grow, poke, setcplen}
use event_server.LuaThread.{
  LuaTask, Outcome, cache, set_user_result, set_user_results, return_string, returned_value, work,
}

abbrev Keeps : Option ℕ → Option LuaTask → Type 0
Keeps c r = (t : LuaTask) → r ≡ some t → t.co ≡ c

Keeps-none : (c : Option ℕ) → Keeps c none
Keeps-none c t e = ground arith

Keeps-some : (c : Option ℕ) (t : LuaTask) → t.co ≡ c → Keeps c (some t)
Keeps-some c t k t' e = ground arith

Keeps-bind {ℓ} :
    {A : Type ℓ} (c : Option ℕ) (r : Option A) (f : A → Option LuaTask)
    → ((x : A) → Keeps c (f x))
    → Keeps c (r >>= f)
Keeps-bind c none f h = Keeps-none c
Keeps-bind c (some x) f h = h x

-- A task that keeps its coroutine, and then a further step.
Keeps-then :
    (c : Option ℕ) (r : Option LuaTask) (f : LuaTask → Option LuaTask)
    → Keeps c r
    → ((t : LuaTask) → t.co ≡ c → Keeps c (f t))
    → Keeps c (r >>= f)
Keeps-then c none f k h = Keeps-none c
Keeps-then c (some t) f k h = h t (k t refl)

set_user_result-Keeps :
    (c : Option ℕ) (code : List ℕ) (t : LuaTask) → t.co ≡ c → Keeps c (set_user_result code t)
unfolding set_user_result
set_user_result-Keeps c code t k = Keeps-bind c (grow cache (length code) t.retbuf) _ (λ b.
    Keeps-bind c (poke cache 0 code b) _
      (λ d. Keeps-some c (record t { retbuf = d; user_ret = true }) k))

set_user_results-Keeps :
    (c : Option ℕ) (codes : List (List ℕ)) (t : LuaTask)
    → t.co ≡ c
    → Keeps c (set_user_results codes t)
unfolding set_user_results
set_user_results-Keeps c [] t k = Keeps-some c t k
set_user_results-Keeps c (code ∷ codes) t k =
    Keeps-then c (set_user_result code t) _ (set_user_result-Keeps c code t k)
      (set_user_results-Keeps c codes)

return_string-Keeps :
    (c : Option ℕ) (text : List ℕ) (t : LuaTask) → t.co ≡ c → Keeps c (return_string text t)
unfolding return_string
return_string-Keeps c text t k =
    Keeps-bind c (grow cache (add_size (length text) 1) t.retbuf) _ (λ x.
      Keeps-bind c (poke cache 0 text x) _ (λ y.
        Keeps-bind c (poke cache (length text) (0 ∷ []) y) _ (λ z.
          Keeps-bind c (setcplen cache (length text) z) _
            (λ u. Keeps-some c (record t { retbuf = u }) k))))

value_cases :
    (c co : Option ℕ) (top : Option (List ℕ)) (t : LuaTask)
    → t.co ≡ c
    → Keeps c (elim co [
      | none ↦ some (record t { ok = true })
      | some x ↦ elim top [
        | none ↦ some (record t { ok = true })
        | some text ↦ return_string text (record t { ok = true })
      ]
    ])
value_cases c none top t k = Keeps-some c (record t { ok = true }) k
value_cases c (some x) none t k = Keeps-some c (record t { ok = true }) k
value_cases c (some x) (some text) t k = return_string-Keeps c text (record t { ok = true }) k

returned_value-Keeps :
    (c : Option ℕ) (top : Option (List ℕ)) (t : LuaTask) → t.co ≡ c → Keeps c (returned_value top t)
unfolding returned_value
returned_value-Keeps c top t k = value_cases c t.co top t k

Keeps-if :
    (c : Option ℕ) (b : Bool) (x y : Option LuaTask)
    → Keeps c x
    → Keeps c y
    → Keeps c (if b then x else y)
Keeps-if c true x y h k = h
Keeps-if c false x y h k = k

pub work-Keeps : (o : Outcome) (t t' : LuaTask) → work o t ≡ some t' → t'.co ≡ t.co
unfolding work
work-Keeps o t =
    Keeps-then t.co (set_user_results o.user_results (record t { user_ret = false })) _
      (set_user_results-Keeps t.co o.user_results (record t { user_ret = false }) refl)
      (λ u k. Keeps-if t.co u.user_ret _ _ (Keeps-some t.co (record u { ok = false }) k) (
        Keeps-if t.co (o.status == 0) _ _ (returned_value-Keeps t.co o.top u k) (
          Keeps-bind t.co o.top _ (λ text.
            Keeps-then t.co (return_string text u) _ (return_string-Keeps t.co text u k)
              (λ v l. Keeps-some t.co (record v { ok = false }) l)))))
