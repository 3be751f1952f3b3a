-- ===== src/Samples/Mongo.antt =====
-- Numbers as BSON documents, and a driver whose server is one value and never fails: the two collections, with a transaction that
-- starts from them and replaces them at its end.
use eventhorizon.Prelude.{
  ℕ, ◌+◌, ℕ_discrete, ◌≡◌, ◌≢◌, refl, Bool, true, false, Option, none, some, List, [], ◌∷◌, ◌++◌,
  map, ite, arith, ap, sym,
}
use eventhorizon.Errors.{Err, foreign, Result, ok, err, panic, Action}
use eventhorizon.EventStore.Mongo.Building.{BsonCodec}
use eventhorizon.EventStore.Mongo.Client.{
  Evt, Stream, int64, Driver, DriverLaws, Collections, select, put_stream, advance,
}

is_duplicate_key_error : Err → Bool
is_duplicate_key_error (foreign _) = true
is_duplicate_key_error _ = false

module _ {Any : Type 0} where
  pub end_transaction :
      Collections Any → Result (Unit {0}) × Collections Any → Result (Unit {0}) × Collections Any
  end_transaction s (ok _, t) = (ok tt, t)
  end_transaction s (err x, t) = (err x, s)
  end_transaction s (panic, t) = (panic, s)

  pub insert_if_new : Stream → Option Stream → Action (Collections Any) (Unit {0})
  insert_if_new strm none s = (ok tt, put_stream strm.id strm s)
  insert_if_new strm (some _) s = (err (foreign 11000), s)

  pub update_if_at : Stream → ℕ → ℕ → Option Stream → Action (Collections Any) ℕ
  update_if_at strm version count none s = (ok 0, s)
  update_if_at strm version count (some old) s =
      ite (ℕ_discrete old.version version) (ok 1, put_stream strm.id (advance strm count old) s)
        (ok 0, s)

  unfoldable pub server : Driver Any (Collections Any)
  unfolding end_transaction is_duplicate_key_error insert_if_new update_if_at select put_stream
      advance
  server = record {
    start_session = λ s. (ok tt, s);
    with_transaction = λ f s. end_transaction s (f s);
    increment_position = λ n s. (ok (ok s.position), record s { position = s.position + n });
    insert_events = λ es s.
        (ok (map (λ (e : Evt Any). int64 e.position) es), record s { events = s.events ++ es });
    insert_stream = λ strm s. insert_if_new strm (s.streams strm.id) s;
    is_duplicate_key_error = is_duplicate_key_error;
    update_stream = λ strm version count s. update_if_at strm version count (s.streams strm.id) s;
    find_events = λ q s. (ok (map ok (select q s.events)), s);
  }

  pub end_transaction-ok :
      (s t : Collections Any) (p : Result (Unit {0}) × Collections Any)
      → end_transaction s p ≡ (ok tt, t)
      → p ≡ (ok tt, t)
  unfolding end_transaction
  end_transaction-ok s t (ok _, u) h = h
  end_transaction-ok s t (err x, u) h = absurd cc
  end_transaction-ok s t (panic, u) h = absurd cc

  pub end_transaction-fails :
      (s : Collections Any) (p : Result (Unit {0}) × Collections Any)
      → (end_transaction s p).0 ≢ ok tt
      → (end_transaction s p).1 ≡ s
  unfolding end_transaction
  end_transaction-fails s (ok _, u) h = absurd (h refl)
  end_transaction-fails s (err x, u) h = refl
  end_transaction-fails s (panic, u) h = refl

  pub insert_if_new-ok :
      (strm : Stream) (found : Option Stream) (s t : Collections Any)
      → insert_if_new strm found s ≡ (ok tt, t)
      → (found ≡ none) × (t ≡ put_stream strm.id strm s)
  unfolding insert_if_new
  insert_if_new-ok strm none s t h = (refl, ap (λ p. p.1) (sym h))
  insert_if_new-ok strm (some _) s t h = absurd cc

  pub update_if_at-ok :
      (strm : Stream) (version count n : ℕ) (found : Option Stream) (s t : Collections Any)
      → update_if_at strm version count found s ≡ (ok n, t)
      → n ≢ 0
      → (old : Stream) × (found ≡ some old)
        × (old.version ≡ version)
        × (t ≡ put_stream strm.id (advance strm count old) s)
  unfolding update_if_at
  update_if_at-ok strm version count n none s t h ne = absurd (ground arith)
  update_if_at-ok strm version count n (some old) s t h ne = elim (ℕ_discrete old.version version) [
    | yes w ↦ (old, refl, w, ground arith)
    | no w ↦ absurd (ground arith)
  ]

  pub incremented-position :
      (n p : ℕ) (s t : Collections Any) (found : Result ℕ)
      → server.increment_position n s ≡ (ok found, t)
      → found ≡ ok p
      → p ≡ s.position
  unfolding server
  incremented-position n p s t found h e = ground arith

  unfoldable pub server_laws : DriverLaws {Any = Any} server
  unfolding server
  server_laws = record {
    view = λ s. s;
    started = λ s. refl;
    committed = λ f s t h. (s, t, refl, end_transaction-ok s t (f s) h, refl);
    aborted = λ f s h. end_transaction-fails s (f s) h;
    incremented =
        λ n s t found h. (λ p e. incremented-position n p s t found h e, ap (λ q. q.1) (sym h));
    not_incremented = λ n s h. absurd (h _ refl);
    inserted_events = λ es s t ids h. ap (λ p. p.1) (sym h);
    inserted_stream = λ strm s t h. insert_if_new-ok strm (s.streams strm.id) s t h;
    updated_stream = λ strm version count n s t h ne.
        update_if_at-ok strm version count n (s.streams strm.id) s t h ne;
    found_events = λ q v s t docs h sorted rises.
        ap (λ p. elim p.0 [ ok found ↦ found | err x ↦ [] | panic ↦ [] ]) (sym h);
    found_state = λ q s. refl;
  }

abbrev pub read_number : List ℕ → ℕ → Result ℕ
read_number [] made = err (foreign 1)
read_number (n ∷ ns) made = ok n

-- A document of one byte for each number.
abbrev pub bson : BsonCodec ℕ
bson = record {
  event_data_factories = record { items = λ _. some 0; name = "event" };
  marshal = λ n. ok (n ∷ []);
  unmarshal = read_number;
  number = λ p. p;
}
