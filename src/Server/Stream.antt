-- ===== src/Server/Stream.antt =====
-- What ConsumeStream sends, over any log that keeps its records.
use proglog.Base.{
  ℕ, suc, ◌+◌, ◌<◌, ◌^◌, ◌≡◌, refl, ap, sym, ◌∙◌, List, [], ◌∷◌, Option, none, some, true, false,
  arith, length, Option-cases, Bool-cases, inl, inr, add64,
}
use proglog.Base.Exec.{Error, ok, err, offset_out_of_range}
use proglog.Api.{Record, ConsumeResponse}
use proglog.Server.{
  Config, Context, Tick, Served, End, allow, consume, consume_stream, running, failed, done,
  consume_action, sending,
}

-- What a commit log promises its readers: `view` is the record at an offset, Read returns it, or
-- ErrOffsetOutOfRange where there is none, and Read changes no record.
pub record Readable (config : Config) : Type 1 where
  pub IsValid : config.Log → Type 0
  pub view : config.Log → ℕ → Option Record
  pub read_found :
      (l : config.Log) (off : ℕ) (r : Record)
      → IsValid l
      → view l off ≡ some r
      → (config.read off l).0 ≡ ok r
  pub read_missing :
      (l : config.Log) (off : ℕ)
      → IsValid l
      → view l off ≡ none
      → (config.read off l).0 ≡ err (offset_out_of_range off)
  pub read_keeps : (l : config.Log) (off : ℕ) → IsValid l → IsValid (config.read off l).1
  pub read_views :
      (l : config.Log) (off o : ℕ) → IsValid l → view (config.read off l).1 o ≡ view l o

module _ (config : Config) (readable : Readable config) (ctx : Context)
    (allowed : allow config ctx consume_action ≡ ok tt) where
  open readable use {IsValid, view, read_found, read_missing, read_keeps, read_views}

  -- What other calls do keeps the log valid and loses no record.
  pub record Grows (world : config.Log → config.Log) : Type 0 where
    pub valid : (l : config.Log) → IsValid l → IsValid (world l)
    pub keeps :
        (l : config.Log) (off : ℕ) (r : Record)
        → IsValid l
        → view l off ≡ some r
        → view (world l) off ≡ some r

  abbrev pub AllGrow : List (Tick config.Log) → Type 0
  AllGrow [] = Unit {0}
  AllGrow (t ∷ ts) = Grows t.world × AllGrow ts

  -- The responses are the records of the log at the offsets from `off` on, none skipped and none
  -- sent twice.
  abbrev pub InOrder : config.Log → ℕ → List ConsumeResponse → Type 0
  InOrder l off [] = Unit {0}
  InOrder l off (a ∷ as') = (view l off ≡ some a.value) × InOrder l (off + 1) as'

  -- One call of Consume.
  consume-found :
      (l : config.Log) (off : ℕ) (r : Record)
      → IsValid l
      → view l off ≡ some r
      → consume config ctx (record { offset = off }) l
        ≡ (ok (record { value = r }), (config.read off l).1)
  unfolding consume
  consume-found l off r v e = ground (arith, allowed, read_found l off r v e)

  consume-missing :
      (l : config.Log) (off : ℕ)
      → IsValid l
      → view l off ≡ none
      → consume config ctx (record { offset = off }) l
        ≡ (err (offset_out_of_range off), (config.read off l).1)
  unfolding consume
  consume-missing l off v e = ground (arith, allowed, read_missing l off v e)

  -- The log after a round of ConsumeStream that reads at `off`.
  next_log : Tick config.Log → ℕ → config.Log → config.Log
  next_log t off l = (config.read off (t.world l)).1

  module _ (t : Tick config.Log) (ts : List (Tick config.Log)) (off : ℕ) (l : config.Log) where
    round_cancelled :
        t.cancelled ≡ true
        → consume_stream config ctx off (t ∷ ts) l ≡ record { end = done; sent = []; log = l }
    unfolding consume_stream
    round_cancelled c = ground (arith, c)

    round_missing :
        t.cancelled ≡ false
        → IsValid (t.world l)
        → view (t.world l) off ≡ none
        → consume_stream config ctx off (t ∷ ts) l
          ≡ consume_stream config ctx off ts (next_log t off l)
    unfolding consume_stream next_log
    round_missing c v e = ground (arith, c, consume-missing (t.world l) off v e)

    round_failed :
        (r : Record) (e : Error)
        → t.cancelled ≡ false
        → IsValid (t.world l)
        → view (t.world l) off ≡ some r
        → t.send_error ≡ some e
        → consume_stream config ctx off (t ∷ ts) l
          ≡ record { end = failed e; sent = []; log = next_log t off l }
    unfolding consume_stream next_log
    round_failed r e c v f s = ground (arith, c, consume-found (t.world l) off r v f, s)

    round_sent :
        (r : Record)
        → t.cancelled ≡ false
        → IsValid (t.world l)
        → view (t.world l) off ≡ some r
        → t.send_error ≡ none
        → off + 1 < 2 ^ 64
        → consume_stream config ctx off (t ∷ ts) l
          ≡ sending
              (record { value = r })
              (consume_stream config ctx (off + 1) ts (next_log t off l))
    unfolding consume_stream next_log
    round_sent r c v f s small =
        let wrap : add64 off 1 ≡ off + 1 = omega arith in
        ground (arith, c, consume-found (t.world l) off r v f, s, wrap)

  -- A run of the stream that sends the log's records in order and loses none of them.
  pub record Streamed (l : config.Log) (off : ℕ) (s : Served ConsumeResponse config.Log)
      : Type 0 where
    pub valid : IsValid s.log
    pub keeps : (o : ℕ) (r : Record) → view l o ≡ some r → view s.log o ≡ some r
    pub in_order : InOrder s.log off s.sent

  Streamed-next :
      (t : Tick config.Log) (off off' : ℕ) (l : config.Log) (s : Served ConsumeResponse config.Log)
      → IsValid l
      → Grows t.world
      → Streamed (next_log t off l) off' s
      → (o : ℕ) (r : Record) → view l o ≡ some r
      → view s.log o ≡ some r
  unfolding next_log
  Streamed-next t off off' l s v g h o r e =
      h.keeps o r (read_views (t.world l) off o (g.valid l v) ∙ g.keeps l o r v e)

  next_log-IsValid :
      (t : Tick config.Log) (off : ℕ) (l : config.Log)
      → IsValid l
      → Grows t.world
      → IsValid (next_log t off l)
  unfolding next_log
  next_log-IsValid t off l v g = read_keeps (t.world l) off (g.valid l v)

  Streamed-stop :
      (t : Tick config.Log) (off : ℕ) (l : config.Log) (end : End)
      → IsValid l
      → Grows t.world
      → Streamed l off (record { end = end; sent = []; log = next_log t off l })
  unfolding next_log
  Streamed-stop t off l end v g = record {
    valid = read_keeps (t.world l) off (g.valid l v);
    keeps = λ o r e. read_views (t.world l) off o (g.valid l v) ∙ g.keeps l o r v e;
    in_order = tt;
  }

  -- ConsumeStream sends the records of the log from the requested offset on, in order, none skipped
  -- and none twice, whatever other calls append between its rounds, and however it ends.
  pub consume_stream-Streamed :
      (ts : List (Tick config.Log)) (off : ℕ) (l : config.Log)
      → IsValid l
      → AllGrow ts
      → off + length ts < 2 ^ 64
      → Streamed l off (consume_stream config ctx off ts l)
  consume_stream-Streamed [] off l v g small =
      unfold consume_stream in record { valid = v; keeps = λ o r e. e; in_order = tt }
  consume_stream-Streamed (t ∷ ts) off l v (g, gs) small = elim (Bool-cases t.cancelled) [
    | inl c ↦
        rw (round_cancelled t ts off l c) (record { valid = v; keeps = λ o r e. e; in_order = tt })
    | inr c ↦ elim (Option-cases (view (t.world l) off)) [
      | inl missing ↦
          let rest =
            consume_stream-Streamed ts off (next_log t off l) (next_log-IsValid t off l v g) gs
              (omega arith) in
          rw (round_missing t ts off l c (g.valid l v) missing) (record {
            valid = rest.valid;
            keeps = Streamed-next t off off l _ v g rest;
            in_order = rest.in_order;
          })
      | inr (r, found) ↦ elim (Option-cases t.send_error) [
        | inr (e, s) ↦
            rw (round_failed t ts off l r e c (g.valid l v) found s)
              (Streamed-stop t off l (failed e) v g)
        | inl s ↦
            let rest =
              consume_stream-Streamed ts (off + 1) (next_log t off l) (next_log-IsValid t off l v g)
                gs (omega arith) in
            rw (round_sent t ts off l r c (g.valid l v) found s (omega arith)) (record {
              valid = rest.valid;
              keeps = Streamed-next t off (off + 1) l _ v g rest;
              in_order = (
                rest.keeps off r
                    (unfold next_log in read_views (t.world l) off off (g.valid l v) ∙ found),
                rest.in_order,
              );
            })
      ]
    ]
  ]

  -- Rounds in which the client neither goes away nor fails to receive.
  abbrev pub AllQuiet : List (Tick config.Log) → Type 0
  AllQuiet [] = Unit {0}
  AllQuiet (t ∷ ts) = (t.cancelled ≡ false) × (t.send_error ≡ none) × AllQuiet ts

  -- While the client listens, ConsumeStream sends one record each round as long as the log has them,
  -- and does not end.
  pub consume_stream_progress :
      (ts : List (Tick config.Log)) (off : ℕ) (l : config.Log)
      → IsValid l
      → AllGrow ts
      → AllQuiet ts
      → off + length ts < 2 ^ 64
      → ((i : ℕ) → i < length ts → (r : Record) × (view l (off + i) ≡ some r))
      → (length (consume_stream config ctx off ts l).sent ≡ length ts)
        × ((consume_stream config ctx off ts l).end ≡ running)
  consume_stream_progress [] off l v g q small has = unfold consume_stream in (refl, refl)
  consume_stream_progress (t ∷ ts) off l v (g, gs) (c, s, qs) small has =
      let (r, here) = has 0 (omega arith) in
      let start : off + 0 ≡ off = omega arith in
      let found : view (t.world l) off ≡ some r =
        g.keeps l off r v (ap (view l) (sym start) ∙ here) in
      rw (round_sent t ts off l r c (g.valid l v) found s (omega arith)) (
        let rest =
          consume_stream_progress ts (off + 1) (next_log t off l) (next_log-IsValid t off l v g) gs
            qs (omega arith)
            λ i b.
              let (x, e) = has (i + 1) (omega arith) in
              let shift : off + (i + 1) ≡ off + 1 + i = omega arith in
              (
                x,
                unfold next_log in
                    read_views (t.world l) off (off + 1 + i) (g.valid l v)
                    ∙ g.keeps l (off + 1 + i) x v (ap (view l) (sym shift) ∙ e),
              ) in
        (ap suc rest.0, rest.1))
