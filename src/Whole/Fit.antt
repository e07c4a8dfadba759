-- ===== src/Whole/Fit.antt =====
-- What the joint steps keep, under the conditions of `Joint`.
use leveldown.Base.{arith, ◌≡◌, sym, ◌∙◌, ap, some_inj, [], inl, inr, ◌⊎◌, arith}
use leveldown.Value.{V8}
use leveldown.Cursor.{CursorOps}
use leveldown.Store.LevelDb.{LevelDb}
use leveldown.Store.Traffic as Traffic
use leveldown.Store.Traffic.Objects.{Step-AllValid}
use leveldown.Store.Traffic.{Job, waiting, done, state}
use leveldown.Lifecycle.{Database}
use leveldown.Lifecycle.Steps as Life
use leveldown.Lifecycle.Steps.{IsOpen}
use leveldown.Whole.Joint.{
  Whole, there, Permits, Awaits, dropped, works, lives, Reach, here, then_step,
}
use leveldown.Whole.Keeps.{sync_call-Kept, Kept-there, Step-StaysOpen, Step-KeepsDb}
use leveldown.Whole.Jobs.{step-Busy, IsFit, db_there, job_runs, there-some}

module _ {C D B : Type 0} (ops : CursorOps C) (v8 : V8) (leveldb : LevelDb D B) where
  works-linked :
      (s : Whole C D B) (u : Traffic.Traffic D B) (step : Traffic.Step v8 leveldb s.traffic u)
      → Permits ops v8 leveldb s.life s.traffic u step
      → IsFit ops v8 leveldb s
      → s.life.db ≡ there u.db
  works-linked s u (Traffic.calls m args w h e) p f = f.linked
  works-linked s u (Traffic.sync_calls m args r x e) p f =
      let (d, o) = there-some s.traffic.db (sym f.linked ∙ p.0) in
      p.0
      ∙ sym (Kept-there _ (sync_call-Kept v8 leveldb m args (state v8 leveldb s.traffic) d o) r x e)
  works-linked s u (Traffic.batches args b sync h e) p f = f.linked
  works-linked s u (Traffic.new_batches args b h e) p f = f.linked
  works-linked s u (Traffic.chained_calls i c b b' h g e) p f = f.linked
  works-linked s u (Traffic.writes i b g e) p f = f.linked
  works-linked s u (Traffic.executes i w status out db e x) p f =
      let (open_, (d, o)) = db_there ops v8 leveldb s i (waiting w) f e in
      let (status', out', d', runs) = job_runs ops v8 leveldb s i w f e in
      open_.0 ∙ ap (λ q. there q.2) (some_inj (sym runs ∙ x))
  works-linked s u (Traffic.completes i w status out cb h e x) p f = f.linked

  works-calm :
      (s : Whole C D B) (u : Traffic.Traffic D B) (step : Traffic.Step v8 leveldb s.traffic u)
      → Permits ops v8 leveldb s.life s.traffic u step
      → IsFit ops v8 leveldb s
      → (u.jobs ≡ []) ⊎ IsOpen s.life
  works-calm s u (Traffic.calls m args w h e) p f = inr p.1
  works-calm s u (Traffic.sync_calls m args r x e) p f = f.calm
  works-calm s u (Traffic.batches args b sync h e) p f = inr p
  works-calm s u (Traffic.new_batches args b h e) p f = f.calm
  works-calm s u (Traffic.chained_calls i c b b' h g e) p f = f.calm
  works-calm s u (Traffic.writes i b g e) p f = inr p
  works-calm s u (Traffic.executes i w status out db e x) p f =
      inr (db_there ops v8 leveldb s i (waiting w) f e).0
  works-calm s u (Traffic.completes i w status out cb h e x) p f =
      inr (db_there ops v8 leveldb s i (done w status out) f e).0

  works-IsFit :
      (s : Whole C D B) (u : Traffic.Traffic D B) (step : Traffic.Step v8 leveldb s.traffic u)
      → Permits ops v8 leveldb s.life s.traffic u step
      → IsFit ops v8 leveldb s
      → IsFit ops v8 leveldb (record s { traffic = u })
  works-IsFit s u step p f = record {
    linked = works-linked s u step p f;
    calm = works-calm s u step p f;
    valid = Step-AllValid v8 leveldb s.traffic u step f.valid;
    busy = step-Busy ops v8 leveldb s.life s.traffic u step p f.busy;
  }

  -- A step of the iterators that leaves the LevelDB object as it was, and open what was open.
  unclosed :
      (s : Whole C D B) (e : Database C)
      → e.db ≡ s.life.db
      → (IsOpen s.life → IsOpen e)
      → IsFit ops v8 leveldb s
      → IsFit ops v8 leveldb (record s { life = e })
  unclosed s e k o f = record {
    linked = k ∙ f.linked;
    calm = elim f.calm [ inl n ↦ inl n | inr p ↦ inr (o p) ];
    valid = f.valid;
    busy = f.busy;
  }

  lives-IsFit :
      (s : Whole C D B) (e : Database C) (step : Life.Step ops s.life e)
      → Awaits ops v8 leveldb s.life e step s.traffic
      → IsFit ops v8 leveldb s
      → IsFit ops v8 leveldb
          (record { life = e; traffic = dropped ops v8 leveldb s.life e step s.traffic })
  lives-IsFit s e (Life.opens o p f') a f =
      let step : Life.Step ops s.life e = Life.opens o p f' in
      unclosed s e (Step-KeepsDb ops s.life e step) (Step-StaysOpen ops s.life e step) f
  lives-IsFit s e (Life.nexts i h g n) a f =
      let step : Life.Step ops s.life e = Life.nexts i h g n in
      unclosed s e (Step-KeepsDb ops s.life e step) (Step-StaysOpen ops s.life e step) f
  lives-IsFit s e (Life.next_executes i fuel h h' got over g q r) a f =
      let step : Life.Step ops s.life e = Life.next_executes i fuel h h' got over g q r in
      unclosed s e (Step-KeepsDb ops s.life e step) (Step-StaysOpen ops s.life e step) f
  lives-IsFit s e (Life.next_completes i h ok g q) a f =
      let step : Life.Step ops s.life e = Life.next_completes i h ok g q in
      unclosed s e (Step-KeepsDb ops s.life e step) (Step-StaysOpen ops s.life e step) f
  lives-IsFit s e (Life.next_syncs i fuel h h' r g n q) a f =
      let step : Life.Step ops s.life e = Life.next_syncs i fuel h h' r g n q in
      unclosed s e (Step-KeepsDb ops s.life e step) (Step-StaysOpen ops s.life e step) f
  lives-IsFit s e (Life.seeks i h target g live n ok) a f =
      let step : Life.Step ops s.life e = Life.seeks i h target g live n ok in
      unclosed s e (Step-KeepsDb ops s.life e step) (Step-StaysOpen ops s.life e step) f
  lives-IsFit s e (Life.ends i h g) a f =
      let step : Life.Step ops s.life e = Life.ends i h g in
      unclosed s e (Step-KeepsDb ops s.life e step) (Step-StaysOpen ops s.life e step) f
  lives-IsFit s e (Life.end_executes i h g q) a f =
      let step : Life.Step ops s.life e = Life.end_executes i h g q in
      unclosed s e (Step-KeepsDb ops s.life e step) (Step-StaysOpen ops s.life e step) f
  lives-IsFit s e (Life.end_completes i h ok g q) a f =
      let step : Life.Step ops s.life e = Life.end_completes i h ok g q in
      unclosed s e (Step-KeepsDb ops s.life e step) (Step-StaysOpen ops s.life e step) f
  lives-IsFit s e (Life.end_syncs i h g) a f =
      let step : Life.Step ops s.life e = Life.end_syncs i h g in
      unclosed s e (Step-KeepsDb ops s.life e step) (Step-StaysOpen ops s.life e step) f
  lives-IsFit s e (Life.close_completes ok q) a f =
      let step : Life.Step ops s.life e = Life.close_completes ok q in
      unclosed s e (Step-KeepsDb ops s.life e step) (Step-StaysOpen ops s.life e step) f
  lives-IsFit s e (Life.closes o) a f = record {
    linked = Step-KeepsDb ops s.life e (Life.closes o) ∙ f.linked;
    calm = inl a;
    valid = f.valid;
    busy = f.busy;
  }
  lives-IsFit s e (Life.close_executes q) a f = record {
    linked = Step-KeepsDb ops s.life e (Life.close_executes q);
    calm = elim f.calm [ inl n ↦ inl n | inr p ↦ absurd (ground (arith, p)) ];
    valid = f.valid;
    busy = f.busy;
  }

  pub Reach-IsFit :
      (s t : Whole C D B)
      → Reach ops v8 leveldb s t
      → IsFit ops v8 leveldb s
      → IsFit ops v8 leveldb t
  Reach-IsFit s t here f = f
  Reach-IsFit s t (then_step {t = m} r (works u step p)) f =
      works-IsFit m u step p (Reach-IsFit s m r f)
  Reach-IsFit s t (then_step {t = m} r (lives e step a)) f =
      lives-IsFit m e step a (Reach-IsFit s m r f)
