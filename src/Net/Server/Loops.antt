-- ===== src/Net/Server/Loops.antt =====
-- `NextLoop` deals the connections out in turn.
use native.Mathlib.Nat.{mod-lt}
use turbo_core_dist_ai_clush.Prelude.{
  All, sym, subst, ℕ, zero, suc, ◌+◌, ◌%◌, ◌^◌, ◌<◌, ◌≡◌, refl, ap, List, [], ◌∷◌, arith,
}
use turbo_core_dist_ai_clush.Net.Server.{TcpServer, WhichLoop, main_loop, sub_loop, next_loop}

-- The loops that a number of calls choose, and the server after them.
unfoldable pub choose : ℕ → TcpServer → List WhichLoop × TcpServer
choose zero s = ([], s)
choose (suc n) s =
    let chosen = next_loop s in let rest = choose n chosen.1 in (chosen.0 ∷ rest.0, rest.1)

-- The indices from a start on, in turn.
unfoldable pub in_turn : ℕ → ℕ → ℕ → List WhichLoop
in_turn threads zero i = []
in_turn threads (suc n) i = sub_loop (i % threads) ∷ in_turn threads n (i + 1)

next_loop-sub_loop :
    (s : TcpServer)
    → 0 < s.m_thread_num
    → s.m_next_loop_idx + 1 < 2 ^ 64
    → next_loop s ≡ (
      sub_loop (s.m_next_loop_idx % s.m_thread_num),
      record s { m_next_loop_idx = s.m_next_loop_idx + 1 },
    )
unfolding next_loop
next_loop-sub_loop s h small = ground (arith, h, small)

-- The index is one of `m_sub_loops`.
abbrev pub IsInRange : ℕ → WhichLoop → Type 0
IsInRange threads main_loop = threads ≡ 0
IsInRange threads (sub_loop i) = i < threads

in_turn-IsInRange : (threads n i : ℕ) → 0 < threads → All (IsInRange threads) (in_turn threads n i)
unfolding in_turn
in_turn-IsInRange threads zero i h = tt
in_turn-IsInRange threads (suc n) i h = (mod-lt i h, in_turn-IsInRange threads n (i + 1) h)

choose_lem :
    (n : ℕ) (s : TcpServer)
    → 0 < s.m_thread_num
    → s.m_next_loop_idx + n < 2 ^ 64
    → ((choose n s).0 ≡ in_turn s.m_thread_num n s.m_next_loop_idx)
      × ((choose n s).1.m_next_loop_idx ≡ s.m_next_loop_idx + n)
unfolding choose in_turn
choose_lem zero s h small = (refl, omega arith)
choose_lem (suc n) s h small =
    let next = record s { m_next_loop_idx = s.m_next_loop_idx + 1 } in
    let (same, count) = choose_lem n next h (omega (arith, small)) in
    rw (next_loop-sub_loop s h (omega (arith, small)))
      (ap (λ ls. sub_loop (s.m_next_loop_idx % s.m_thread_num) ∷ ls) same, omega (arith, count))

-- As long as the counter does not wrap around, `NextLoop` of a server with sub loops chooses the sub
-- loops in turn, and every index that it uses is in the range of `m_sub_loops`.
pub choose-in_turn :
    (n : ℕ) (s : TcpServer)
    → 0 < s.m_thread_num
    → s.m_next_loop_idx + n < 2 ^ 64
    → ((choose n s).0 ≡ in_turn s.m_thread_num n s.m_next_loop_idx)
      × All (IsInRange s.m_thread_num) (choose n s).0
choose-in_turn n s h small =
    let same = (choose_lem n s h small).0 in
    (
      same,
      subst (All (IsInRange s.m_thread_num)) (sym same)
          (in_turn-IsInRange s.m_thread_num n s.m_next_loop_idx h),
    )
