-- ===== src/NetStruct/PackageQueueMap/Queues.antt =====
-- The two queues of ids as one: the ids to send again, then those not sent yet.
use sharpvpn.Base.{
  ℕ, true, false, ◌+◌, ◌-◌, ◌*◌, ◌%◌, ◌<◌, ◌≡◌, sym, ap, ◌∙◌, List, [], ◌∷◌, ◌++◌, Option, none,
  leb, head?, drop, Bool-cases, inl, inr, leb_zero_false→lt,
}
use mathlib.Core.Option
use mathlib.Core.List.{append_assoc}
use sharpvpn.NetStruct.PackageQueueMap.{PackageQueueMap, at, push, resend, pop}
use sharpvpn.NetStruct.Ring
use sharpvpn.NetStruct.Ring.{Ring}
use sharpvpn.NetStruct.Ring.Contents.{push_lem, contents-empty, contents-cons, advance-IsValid}

module _ {A : Type 0} where
  -- Either queue is a cyclic buffer.
  abbrev pub sends : PackageQueueMap A → Ring ℕ
  sends q = record {
    arr = q.queue;
    len = q.len;
    start = q.start;
    end = q.end;
    capacity = 2 * q.capacity;
  }

  abbrev pub resends : PackageQueueMap A → Ring ℕ
  resends q = record {
    arr = q.resend_queue;
    len = q.resend_len;
    start = q.resend_start;
    end = q.resend_end;
    capacity = q.capacity;
  }

  pub record IsValid (q : PackageQueueMap A) : Type 0 where
    pub sends_valid : Ring.IsValid (sends q)
    pub resends_valid : Ring.IsValid (resends q)

  -- The ids to send, in the order in which they go.
  abbrev pub pending : PackageQueueMap A → List ℕ
  pending q = Ring.contents (resends q) ++ Ring.contents (sends q)

  pub push-pending :
      (q : PackageQueueMap A) (d : A) (id : ℕ)
      → IsValid q
      → q.len < 2 * q.capacity
      → IsValid (push q d id) × (pending (push q d id) ≡ pending q ++ (id ∷ []))
  unfolding push Ring.push
  push-pending q d id v h =
      let pushed = push_lem (sends q) id v.sends_valid h in
      (
        record { sends_valid = pushed.0; resends_valid = v.resends_valid },
        ap (◌++◌ (Ring.contents (resends q))) pushed.1
            ∙ sym (append_assoc (Ring.contents (resends q)) (Ring.contents (sends q)) (id ∷ [])),
      )

  -- An id to send again goes behind the others of that kind, and before all that were not sent.
  pub resend-pending :
      (q : PackageQueueMap A) (id : ℕ)
      → IsValid q
      → q.resend_len < q.capacity
      → IsValid (resend q id)
        × (pending (resend q id) ≡ Ring.contents (resends q) ++ (id ∷ Ring.contents (sends q)))
  unfolding resend Ring.push
  resend-pending q id v h =
      let pushed = push_lem (resends q) id v.resends_valid h in
      (
        record { sends_valid = v.sends_valid; resends_valid = pushed.0 },
        ap (λ l. l ++ Ring.contents (sends q)) pushed.1
            ∙ append_assoc (Ring.contents (resends q)) (id ∷ []) (Ring.contents (sends q)),
      )

  pop-sends :
      (q : PackageQueueMap A)
      → leb q.resend_len 0 ≡ true
      → leb q.len 0 ≡ false
      → pop q ≡ (
        at q (q.queue q.start),
        record q { start = (q.start + 1) % (2 * q.capacity); len = q.len - 1 },
      )
  unfolding pop
  pop-sends q r l = rw (r, l)

  pop-resends :
      (q : PackageQueueMap A)
      → leb q.resend_len 0 ≡ false
      → pop q ≡ (
        at q (q.resend_queue q.resend_start),
        record q {
          resend_start = (q.resend_start + 1) % q.capacity;
          resend_len = q.resend_len - 1;
        },
      )
  unfolding pop
  pop-resends q r = elim (Bool-cases (leb q.len 0)) [ inl l ↦ rw (r, l) | inr l ↦ rw (r, l) ]

  pop-empty :
      (q : PackageQueueMap A) → leb q.resend_len 0 ≡ true → leb q.len 0 ≡ true → pop q ≡ (none, q)
  unfolding pop
  pop-empty q r l = rw (r, l)

  -- What `pop` promises of a result.
  pub record Pops (q : PackageQueueMap A) (r : Option A × PackageQueueMap A) : Type 0 where
    pub valid : IsValid r.1
    pub rest : pending r.1 ≡ drop 1 (pending q)
    pub found : r.0 ≡ Option.bind (head? (pending q)) (at q)

  -- `pop` takes the first pending id and returns the package that the table holds for it, or the
  -- null pointer if there is none; nothing else is taken.
  pub pop-Pops : (q : PackageQueueMap A) → IsValid q → Pops q (pop q)
  pop-Pops q v = elim (Bool-cases (leb q.resend_len 0)) [
    | inr r ↦ rw (pop-resends q r) (record {
      valid = record {
        sends_valid = v.sends_valid;
        resends_valid =
            advance-IsValid (resends q) v.resends_valid (leb_zero_false→lt q.resend_len r);
      };
      rest = rw (contents-cons (resends q) r);
      found = unfold Option.bind in rw (contents-cons (resends q) r);
    })
    | inl r ↦ elim (Bool-cases (leb q.len 0)) [
      | inl l ↦ rw (pop-empty q r l) (record {
        valid = v;
        rest = rw (contents-empty (resends q) r, contents-empty (sends q) l);
        found = unfold Option.bind in rw (contents-empty (resends q) r, contents-empty (sends q) l);
      })
      | inr l ↦ rw (pop-sends q r l) (record {
        valid = record {
          sends_valid = advance-IsValid (sends q) v.sends_valid (leb_zero_false→lt q.len l);
          resends_valid = v.resends_valid;
        };
        rest = rw (contents-empty (resends q) r, contents-cons (sends q) l);
        found = unfold Option.bind in rw (contents-empty (resends q) r, contents-cons (sends q) l);
      })
    ]
  ]
