-- ===== src/WriteApi/Consistent.antt =====
-- What holds of the write servicer's state between two calls, and the rules by which a change of
-- one stream keeps it.
use mathlib.Core.Path.{subst}
use bqemulator.Prelude.{
  ℕ, ◌+◌, ◌≡◌, sym, ap, ◌∙◌, true, false, Option, none, some, [], ◌∷◌, arith, if◌then◌else◌, Text,
  text_eq, ◌==◌, Bool-cases, inl, inr, pos, inc, dec,
}
use bqemulator.Dict.{Dict, get, put, get-put_cases}
use bqemulator.Streaming.Stream.{StreamType, WriteStream, same_type}
use bqemulator.Streaming.Strategies.Sound.{IsSound}
use bqemulator.WriteApi.{Server, Gauge}
use bqemulator.WriteApi.Manager.{gauge_inc, gauge_dec}
use bqemulator.WriteApi.Handlers.{set_stream}

module _ {R : Type 0} where
  -- 1 for a registered stream of the kind, else 0.
  abbrev pub slot : StreamType → WriteStream R → ℕ
  slot k s = if s.metric_registered then (if same_type s.stream_type k then 1 else 0) else 0

  abbrev pub slot_of : StreamType → Option (WriteStream R) → ℕ
  slot_of k none = 0
  slot_of k (some s) = slot k s

  -- How many streams of a kind hold a slot of the gauge.
  unfoldable pub registered : StreamType → Dict Text (WriteStream R) → ℕ
  registered k [] = 0
  registered k ((n, s) ∷ d) = slot k s + registered k d

  pub registered-put :
      (k : StreamType) (d : Dict Text (WriteStream R)) (n : Text) (s : WriteStream R)
      → registered k (put d n s) + slot_of k (get d n) ≡ registered k d + slot k s
  unfolding registered put get
  registered-put k [] n s = omega arith
  registered-put k ((m, t) ∷ d) n s = elim (Bool-cases (m == n)) [
    | inl e ↦ rw e (omega arith)
    | inr e ↦ rw e (omega (arith, registered-put k d n s))
  ]

-- Every stream is sound and stands under its own name, and the gauge counts the registered streams.
pub record IsConsistent {R E : Type 0} (sv : Server R E) : Type 0 where
  pub each : (n : Text) (s : WriteStream R) → get sv.streams n ≡ some s → IsSound s × (s.name ≡ n)
  pub balanced : (k : StreamType) → sv.gauge k ≡ pos (registered k sv.streams)

module _ {R E : Type 0} where
  -- Only the streams and the gauge matter.
  pub IsConsistent-of_eq :
      (sv sv' : Server R E)
      → sv'.streams ≡ sv.streams
      → sv'.gauge ≡ sv.gauge
      → IsConsistent sv
      → IsConsistent sv'
  IsConsistent-of_eq sv sv' p q h = record {
    each = rw p h.each;
    balanced =
        λ k. ap (λ (g : Gauge). g k) q ∙ h.balanced k ∙ ap (λ d. pos (registered k d)) (sym p);
  }

  each-put :
      (sv : Server R E) (n : Text) (s' : WriteStream R)
      → IsConsistent sv
      → IsSound s'
      → s'.name ≡ n
      → (m : Text) (s : WriteStream R) → get (put sv.streams n s') m ≡ some s
      → IsSound s × (s.name ≡ m)
  each-put sv n s' h sound named m s e = elim (get-put_cases sv.streams n m s' s e) [
    | inl (p, q) ↦ subst (λ t. IsSound t × (t.name ≡ m)) q (sound, named ∙ p)
    | inr old ↦ h.each m s old
  ]

  -- A change that keeps the kind and the registration of the stream.
  pub set_stream-IsConsistent :
      (sv : Server R E) (n : Text) (s s' : WriteStream R)
      → IsConsistent sv
      → get sv.streams n ≡ some s
      → IsSound s'
      → s'.name ≡ n
      → s'.stream_type ≡ s.stream_type
      → s'.metric_registered ≡ s.metric_registered
      → IsConsistent (set_stream sv n s')
  set_stream-IsConsistent sv n s s' h e sound named kind reg = record {
    each = each-put sv n s' h sound named;
    balanced = λ k. ground (arith, h.balanced k, registered-put k sv.streams n s');
  }

  -- A new stream that is not registered.
  pub set_stream-IsConsistent_new :
      (sv : Server R E) (n : Text) (s' : WriteStream R)
      → IsConsistent sv
      → get sv.streams n ≡ none
      → IsSound s'
      → s'.name ≡ n
      → s'.metric_registered ≡ false
      → IsConsistent (set_stream sv n s')
  set_stream-IsConsistent_new sv n s' h e sound named reg = record {
    each = each-put sv n s' h sound named;
    balanced = λ k. ground (arith, h.balanced k, registered-put k sv.streams n s');
  }

  -- A stream registers with the gauge.
  pub register-IsConsistent :
      (sv : Server R E) (n : Text) (s s' : WriteStream R)
      → IsConsistent sv
      → get sv.streams n ≡ some s
      → s.metric_registered ≡ false
      → IsSound s'
      → s'.name ≡ n
      → s'.metric_registered ≡ true
      → IsConsistent (record (set_stream sv n s') { gauge = gauge_inc s'.stream_type sv.gauge })
  register-IsConsistent sv n s s' h e free sound named reg = record {
    each = each-put sv n s' h sound named;
    balanced = λ k. unfold inc in ground (arith, h.balanced k, registered-put k sv.streams n s');
  }

  -- A registered stream leaves the gauge.
  pub unregister-IsConsistent :
      (sv : Server R E) (n : Text) (s s' : WriteStream R)
      → IsConsistent sv
      → get sv.streams n ≡ some s
      → IsSound s'
      → s'.name ≡ n
      → s'.metric_registered ≡ false
      → IsConsistent (record (set_stream sv n s') {
        gauge = if s.metric_registered then gauge_dec s.stream_type sv.gauge else sv.gauge;
      })
  unregister-IsConsistent sv n s s' h e sound named reg = record {
    each = each-put sv n s' h sound named;
    balanced = λ k. unfold dec in ground (arith, h.balanced k, registered-put k sv.streams n s');
  }
