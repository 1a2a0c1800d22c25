-- ===== src/Copilot/Forward/Rule.antt =====
-- internal/copilot/stream.go: how an invariant of the events becomes a fact about the whole loop.
use cpa_github_copilot.Common.{
  ◌≡◌, refl, inl, inr, Bool, true, false, not, Option, none, some, List, [], ◌∷◌, Bool-cases, Bytes,
  Bytes_eq, ◌==◌,
}
use cpa_github_copilot.Copilot.Framer.{
  SseFramer, push, Pushed, pushed, buffer_exceeded, out_of_fuel, flush,
}
use cpa_github_copilot.Copilot.Forward.{
  ForwardError, buffer_limit, Read, shut_down, failed_read, chunk, Pump, Next, go_on, finished,
  broke, Ending, waiting, returned, emit_frames, emit_tail, end_tail, forward,
}

module _ {ℓ} {S : Type ℓ} (json_valid : Bytes → Bool) (emit_frame : Pump S → Bytes → Pump S × Next)
    (on_terminal on_done : Pump S → Option ForwardError) (Inv Fin Goal : Pump S → Type 0) where
  -- The invariant where the loop goes on, and what holds where an event ends it.
  abbrev pub Good : Pump S × Next → Type 0
  Good (p, go_on) = Inv p
  Good (p, finished) = Fin p
  Good (p, broke e) = Unit

  -- The goal where the loop returns no error.
  abbrev pub Fine : Pump S × Ending → Type 0
  Fine (p, waiting) = Unit
  Fine (p, returned (some e)) = Unit
  Fine (p, returned none) = Goal p

  resume :
      (r : Pump S × Next) (frames : List Bytes)
      → Good r
      → ((q : Pump S) → Inv q → Good (emit_frames json_valid emit_frame q frames))
      → Good (elim r.1 as (λ _. Pump S × Next) [
        | go_on ↦ emit_frames json_valid emit_frame r.0 frames
        | finished ↦ (r.0, finished)
        | broke e ↦ (r.0, broke e)
      ])
  resume (q, go_on) frames h next = next q h
  resume (q, finished) frames h next = h
  resume (q, broke e) frames h next = tt

  -- The loop over the frames, from an invariant that each event keeps.
  pub emit_frames-Good :
      ((p : Pump S) (raw : Bytes) → Inv p → Good (emit_frame p raw))
      → (p : Pump S) (frames : List Bytes) → Inv p
      → Good (emit_frames json_valid emit_frame p frames)
  unfolding emit_frames
  emit_frames-Good keep p [] h = h
  emit_frames-Good keep p (f ∷ frames) h =
      resume (emit_frame p f) frames (keep p f h) (λ q. emit_frames-Good keep q frames)

  abbrev pub Ends : Type ℓ
  Ends =
      ((p : Pump S) → Fin p → on_terminal p ≡ none → Goal p)
      × ((p : Pump S) → Inv p → on_done p ≡ none → Goal p)

  returned-Fine :
      (p : Pump S) (e : Option ForwardError) → (e ≡ none → Goal p) → Fine (p, returned e)
  returned-Fine p none h = h refl
  returned-Fine p (some e) h = tt

  end_tail-Fine :
      Ends
      → (r : Pump S × Next) → Good r
      → Fine (end_tail json_valid emit_frame on_terminal on_done r)
  unfolding end_tail
  end_tail-Fine (fin, fine) (p, go_on) h = returned-Fine p (on_done p) (fine p h)
  end_tail-Fine (fin, fine) (p, finished) h = returned-Fine p (on_terminal p) (fin p h)
  end_tail-Fine (fin, fine) (p, broke e) h = tt

  emit_tail-Good :
      ((p : Pump S) (raw : Bytes) → Inv p → Good (emit_frame p raw))
      → ((p : Pump S) (f : SseFramer) → Inv p → Inv (record p { framer = f }))
      → (p : Pump S) → Inv p
      → Good (emit_tail json_valid emit_frame p)
  unfolding emit_tail
  emit_tail-Good keep move p h =
      let (tail, framer') = flush p.framer in
      let moved = move p framer' h in
      elim (Bool-cases (tail == [])) [
        | inl e ↦ rw (emit_tail, e) moved
        | inr e ↦ rw (emit_tail, e) (keep (record p { framer = framer' }) tail moved)
      ]

  after_frames :
      ((p : Pump S) (raw : Bytes) → Inv p → Good (emit_frame p raw))
      → ((p : Pump S) (f : SseFramer) → Inv p → Inv (record p { framer = f }))
      → Ends
      → (r : Pump S × Next) (done : Bool) (reads : List Read) → Good r
      → ((q : Pump S) → Inv q → Fine (forward json_valid emit_frame on_terminal on_done q reads))
      → Fine (elim r.1 as (λ _. Pump S × Ending) [
        | broke e ↦ (r.0, returned (some e))
        | finished ↦ (r.0, returned (on_terminal r.0))
        | go_on ↦ elim done as (λ _. Pump S × Ending) [
          | true ↦
              end_tail json_valid emit_frame on_terminal on_done
                (emit_tail json_valid emit_frame r.0)
          | false ↦ forward json_valid emit_frame on_terminal on_done r.0 reads
        ]
      ])
  after_frames keep move ends (q, broke e) done reads h next = tt
  after_frames keep move ends (q, finished) done reads h next =
      returned-Fine q (on_terminal q) (ends.0 q h)
  after_frames keep move ends (q, go_on) true reads h next =
      end_tail-Fine ends (emit_tail json_valid emit_frame q) (emit_tail-Good keep move q h)
  after_frames keep move ends (q, go_on) false reads h next = next q h

  pushed_Fine :
      ((p : Pump S) (raw : Bytes) → Inv p → Good (emit_frame p raw))
      → ((p : Pump S) (f : SseFramer) → Inv p → Inv (record p { framer = f }))
      → Ends
      → (p : Pump S) (result : Pushed) (done : Bool) (reads : List Read) → Inv p
      → ((q : Pump S) → Inv q → Fine (forward json_valid emit_frame on_terminal on_done q reads))
      → Fine (elim result as (λ _. Pump S × Ending) [
        | out_of_fuel ↦ (p, waiting)
        | buffer_exceeded f ↦ (record p { framer = f }, returned (some buffer_limit))
        | pushed frames f ↦
            let r = emit_frames json_valid emit_frame (record p { framer = f }) frames in
            elim r.1 as (λ _. Pump S × Ending) [
              | broke e ↦ (r.0, returned (some e))
              | finished ↦ (r.0, returned (on_terminal r.0))
              | go_on ↦ elim done as (λ _. Pump S × Ending) [
                | true ↦
                    end_tail json_valid emit_frame on_terminal on_done
                      (emit_tail json_valid emit_frame r.0)
                | false ↦ forward json_valid emit_frame on_terminal on_done r.0 reads
              ]
            ]
      ])
  pushed_Fine keep move ends p out_of_fuel done reads h next = tt
  pushed_Fine keep move ends p (buffer_exceeded f) done reads h next = tt
  pushed_Fine keep move ends p (pushed frames f) done reads h next =
      after_frames keep move ends
        (emit_frames json_valid emit_frame (record p { framer = f }) frames) done reads
        (emit_frames-Good keep (record p { framer = f }) frames (move p f h)) next

  -- A loop that returns no error has reached the goal, if each event keeps the invariant or ends well.
  pub forward-Fine :
      ((p : Pump S) (raw : Bytes) → Inv p → Good (emit_frame p raw))
      → ((p : Pump S) (f : SseFramer) → Inv p → Inv (record p { framer = f }))
      → Ends
      → (p : Pump S) (reads : List Read) → Inv p
      → Fine (forward json_valid emit_frame on_terminal on_done p reads)
  unfolding forward
  forward-Fine keep move ends p [] h = tt
  forward-Fine keep move ends p (shut_down ∷ reads) h = tt
  forward-Fine keep move ends p (failed_read ∷ reads) h = tt
  forward-Fine keep move ends p (chunk payload error done ∷ reads) h =
      elim (Bool-cases (not (error == []))) [
        | inl e ↦ rw (forward, e) tt
        | inr e ↦
            rw (forward, e)
              (pushed_Fine keep move ends p (push json_valid p.framer payload) done reads h
                (λ q. forward-Fine keep move ends q reads))
      ]
