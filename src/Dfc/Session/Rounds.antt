-- ===== src/Dfc/Session/Rounds.antt =====
-- The loop `while (retry)` of a "get" in `main` of dfc/client.c ends.
use network_system_hw.Base.{
  ℕ, zero, suc, ◌≤◌, ◌<◌, ◌≡◌, refl, Bool, true, false, List, [], ◌∷◌, Option, some, >>=-ext,
  Ensures, Ensures-bind, Ensures-some, arith, length, Bytes,
}
use network_system_hw.Dfc.Client.{Peer, ThreadParam}
use network_system_hw.Dfc.Config.{ClientConfig}
use network_system_hw.Dfc.Packet.{cmd_get}
use network_system_hw.Dfc.Placement.{Parts, threads}
use network_system_hw.Dfc.Placement.Retry.{mark, mark-Falls, count_up}
use network_system_hw.Dfc.Session.{
  Session, run_threads, retval_of, after_get, fetch, behind, Got, unfinished, ended, put_together,
}

pub count_up-length : (hosts : List Bool) → count_up hosts ≤ length hosts
count_up-length [] = omega arith
count_up-length (true ∷ hosts) = omega (arith, count_up-length hosts)
count_up-length (false ∷ hosts) = omega (arith, count_up-length hosts)

module _ {S : Type 0} (conf : ClientConfig) (peer : Peer S) (creates : Bytes → Bool) (stale : Bytes)
    (param : Parts → ThreadParam) (h : ℕ) (filename : Bytes) where
  after_get-ext :
      (again again' : Session S → Option (Got S)) (retry flag : Bool) (st : Session S)
      → (retry ≡ true → again st ≡ again' st)
      → after_get conf peer creates stale again filename retry flag st
        ≡ after_get conf peer creates stale again' filename retry flag st
  after_get-ext again again' true flag st same = same refl
  after_get-ext again again' false true st same = refl
  after_get-ext again again' false false st same = refl

  fetch-same :
      (fuel n : ℕ) (st : Session S)
      → count_up st.hosts < fuel
      → count_up st.hosts < n
      → fetch conf peer creates stale fuel param h filename st
        ≡ fetch conf peer creates stale n param h filename st
  unfolding fetch
  fetch-same zero n st enough more = absurd (omega arith)
  fetch-same (suc fuel) zero st enough more = absurd (omega arith)
  fetch-same (suc fuel) (suc n) st enough more = >>=-ext (threads h cmd_get st.hosts) _ _ λ ts _.
      >>=-ext (run_threads conf peer creates stale param ts st.peers st.files) _ _ λ r _.
        let m = mark (retval_of r.retvals) 0 st.hosts in
        let falls = mark-Falls (retval_of r.retvals) 0 st.hosts in
        after_get-ext _ _ m.retry m.flag (behind conf peer creates stale st r) λ again.
          fetch-same fuel n (behind conf peer creates stale st r)
            (omega (arith, falls.strictly again)) (omega (arith, falls.strictly again))

  abbrev IsEnd : Got S → Type 0
  IsEnd unfinished = ⊥
  IsEnd (ended st) = Unit

  after_get-IsEnd :
      (again : Session S → Option (Got S)) (retry flag : Bool) (st : Session S)
      → (retry ≡ true → Ensures IsEnd (again st))
      → Ensures IsEnd (after_get conf peer creates stale again filename retry flag st)
  after_get-IsEnd again true flag st ends = ends refl
  after_get-IsEnd again false true st ends = tt
  after_get-IsEnd again false false st ends =
      Ensures-bind IsEnd (put_together conf peer creates stale filename st) _ λ st' _. tt

  fetch-IsEnd :
      (fuel : ℕ) (st : Session S)
      → count_up st.hosts < fuel
      → Ensures IsEnd (fetch conf peer creates stale fuel param h filename st)
  unfolding fetch
  fetch-IsEnd zero st enough = absurd (omega arith)
  fetch-IsEnd (suc fuel) st enough = Ensures-bind IsEnd (threads h cmd_get st.hosts) _ λ ts _.
      Ensures-bind IsEnd (run_threads conf peer creates stale param ts st.peers st.files) _ λ r _.
        let m = mark (retval_of r.retvals) 0 st.hosts in
        let falls = mark-Falls (retval_of r.retvals) 0 st.hosts in
        after_get-IsEnd _ m.retry m.flag (behind conf peer creates stale st r) λ again.
          fetch-IsEnd fuel (behind conf peer creates stale st r)
            (omega (arith, falls.strictly again))

  -- Whatever the servers answer, the loop of a "get" ends within one round more than servers are
  -- up, unless something undefined stops it before: with that many rounds or more it is never left
  -- unfinished, and any larger number of them comes to the same end.
  pub fetch_enough :
      (fuel n : ℕ) (st : Session S)
      → count_up st.hosts < fuel
      → count_up st.hosts < n
      → ¬ (fetch conf peer creates stale fuel param h filename st ≡ some unfinished)
        × (fetch conf peer creates stale fuel param h filename st
            ≡ fetch conf peer creates stale n param h filename st)
  fetch_enough fuel n st enough more =
      (λ e. Ensures-some IsEnd _ (fetch-IsEnd fuel st enough) e, fetch-same fuel n st enough more)
