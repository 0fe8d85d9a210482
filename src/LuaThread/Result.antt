-- ===== src/LuaThread/Result.antt =====
-- What a task's result buffer holds when the worker is done with it.
use event_server.Base.{
  ℕ, ◌+◌, ◌≤◌, ◌<◌, ◌≡◌, refl, ap, ◌∙◌, Bool, true, false, some, List, [], ◌∷◌, arith, size_mod,
  add_size, length, take, splice, take-splice_before, take-splice_at, length-splice, ◌==◌,
}
use event_server.FastBuf.{FastBuf, grow, poke, setcplen, contents}
use event_server.FastBuf.Holds.{Holds, contents-Holds, grow_lem, poke_lem, setcplen_lem}
use event_server.LuaThread.{
  LuaTask, Outcome, cache, set_user_result, set_user_results, return_string, returned_value, work,
}

return_string_run :
    (text : List ℕ) (n : ℕ) (t : LuaTask) {b c d e : FastBuf}
    → add_size (length text) 1 ≡ n
    → grow cache n t.retbuf ≡ some b
    → poke cache 0 text b ≡ some c
    → poke cache (length text) (0 ∷ []) c ≡ some d
    → setcplen cache (length text) d ≡ some e
    → return_string text t ≡ some (record t { retbuf = e })
unfolding return_string
return_string_run text n t e0 e1 e2 e3 e4 = rw (e0, e1, e2, e3, e4)

-- Two terminators behind the text leave the text.
terminated :
    (text new : List ℕ)
    → length text + 1 ≤ length new
    → take
        (length text)
        (splice (length text) (0 ∷ []) (splice (length text) (0 ∷ []) (splice 0 text new)))
      ≡ text
terminated text new h =
    take-splice_before (length text) (length text) (0 ∷ []) _ (omega arith) (
      omega
        (arith, len, length-splice (length text) (0 ∷ []) (splice 0 text new) (omega (arith, len))))
    ∙ take-splice_before (length text) (length text) (0 ∷ []) (splice 0 text new) (omega arith)
        (omega (arith, len))
    ∙ ap (λ k. take k (splice 0 text new)) (omega arith)
    ∙ take-splice_at 0 text new (omega arith)
  where
    len : length (splice 0 text new) ≡ length new
    len = length-splice 0 text new (omega arith)

-- The buffer then holds the string, whatever it held before.
return_string_lem :
    (text : List ℕ) (t : LuaTask) {bytes : List ℕ}
    → Holds cache t.retbuf bytes
    → length text + 2 < size_mod
    → (b : FastBuf) × ((r : Bool)
        → return_string text (record t { user_ret = false; ok = r })
          ≡ some (record t { user_ret = false; ok = r; retbuf = b }))
      × (contents cache b ≡ text)
return_string_lem text t h w =
    let n : ℕ = length text in
    let (b, new, e1, G) = grow_lem cache (n + 1) h (omega arith) in
    let (c, e2, hc, cp, al) = poke_lem cache 0 text G.holds (omega (arith, G.alloc)) in
    let (d, e3, hd, cp', al') = poke_lem cache n (0 ∷ []) hc (omega (arith, G.alloc)) in
    let (e, e4, he, cp'', al'') = setcplen_lem cache n hd (omega (arith, G.alloc)) in
    (
      e,
      (λ r.
          return_string_run text (n + 1) (record t { user_ret = false; ok = r }) (omega arith) e1 e2
            e3 e4),
      contents-Holds cache he
          ∙ ap (λ k. take k (splice n (0 ∷ []) (splice n (0 ∷ []) (splice 0 text new)))) cp''
          ∙ terminated text new (omega (arith, G.alloc, G.holds.size)),
    )

work_run :
    (o : Outcome) (t : LuaTask) (c : ℕ) {text : List ℕ} {b : FastBuf}
    → o.user_results ≡ []
    → o.top ≡ some text
    → t.co ≡ some c
    → ((r : Bool)
        → return_string text (record t { user_ret = false; ok = r })
          ≡ some (record t { user_ret = false; ok = r; retbuf = b }))
    → work o t ≡ some (record t { user_ret = false; ok = o.status == 0; retbuf = b })
unfolding work set_user_results returned_value
work_run o t c e0 e1 e2 e = ground (arith, e true, e t.ok)

-- A task with a coroutine and a well-formed result buffer, whose code leaves a string as its value or
-- as its error and has not called `SetUserResult`, comes back with exactly that string in the buffer,
-- and with `ok` just when the status was 0. The string may have up to 2 ^ 64 - 3 bytes.
pub work_lem :
    (o : Outcome) (t : LuaTask) (c : ℕ) (text : List ℕ) {bytes : List ℕ}
    → o.user_results ≡ []
    → o.top ≡ some text
    → t.co ≡ some c
    → Holds cache t.retbuf bytes
    → length text + 2 < size_mod
    → (t' : LuaTask) × (work o t ≡ some t')
      × (t'.ok ≡ (o.status == 0))
      × (contents cache t'.retbuf ≡ text)
      × (t'.co ≡ some c)
work_lem o t c text e0 e1 e2 h w =
    let (b, e, held) = return_string_lem text t h w in
    (
      record t { user_ret = false; ok = o.status == 0; retbuf = b },
      work_run o t c e0 e1 e2 e,
      refl,
      held,
      e2,
    )

user_run :
    (o : Outcome) (t : LuaTask) {code : List ℕ} {b c : FastBuf}
    → o.user_results ≡ code ∷ []
    → grow cache (length code) t.retbuf ≡ some b
    → poke cache 0 code b ≡ some c
    → work o t ≡ some (record t { retbuf = c; user_ret = true; ok = false })
unfolding work set_user_results set_user_result
user_run o t e0 e1 e2 = rw (e0, e1, e2)

-- A result that the code hands over by one call of `SetUserResult` does not arrive: where the result
-- buffer is well-formed and empty before, its contents are empty afterwards too, and the task is not
-- `ok`, whatever the code did besides.
pub work-set_user_result :
    (o : Outcome) (t : LuaTask) (code : List ℕ) {bytes : List ℕ}
    → o.user_results ≡ code ∷ []
    → Holds cache t.retbuf bytes
    → t.retbuf.cp_len ≡ 0
    → length code + 1 < size_mod
    → (t' : LuaTask) × (work o t ≡ some t') × (t'.ok ≡ false) × (contents cache t'.retbuf ≡ [])
work-set_user_result o t code e0 h empty w =
    let (b, new, e1, G) = grow_lem cache (length code) h w in
    let (c, e2, hc, cp, al) = poke_lem cache 0 code G.holds (omega (arith, G.alloc)) in
    (
      record t { retbuf = c; user_ret = true; ok = false },
      user_run o t e0 e1 e2,
      refl,
      contents-Holds cache hc ∙ ap (λ k. take k (splice 0 code new)) (cp ∙ G.cp ∙ empty),
    )
