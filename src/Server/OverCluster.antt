-- ===== src/Server/OverCluster.antt =====
-- The replicated log of internal/log/distributed.go as the server's CommitLog, the way
-- internal/agent/agent.go puts the two together.
use proglog.Base.{
  ℕ, ◌+◌, ◌<◌, ◌^◌, ◌≡◌, refl, ◌∙◌, List, [], ◌∷◌, ◌++◌, Option, some, arith, length,
  get_elem?-append_right,
}
use proglog.Base.Exec.{ok, Exec}
use proglog.Api.{Record, Libs, Reliable, Fits}
use proglog.Auth.{Enforce, authorize}
use proglog.Segment.Layout.{Payload}
use proglog.Log
use proglog.Log.{Log}
use proglog.Log.Refine.{Holds, read-Holds}
use proglog.Distributed
use proglog.Distributed.{Codec, RaftApply, Node}
use proglog.Distributed.Replicas.{Faithful}
use proglog.Distributed.Replicate.{Commits, append-replicated}
use proglog.Distributed.Cluster
use proglog.Distributed.Cluster.{Raft}
use proglog.Server.{
  Config, Peer, Context, allow, produce, consume, produce_action, consume_action, call,
  authenticate,
}

module _ (libs : Libs) (codec : Codec) (S : Type 0) (raft : RaftApply S) (calls : Raft S)
    (node : Node S) (enforce : Enforce) where
  -- The server.Config that setupServer builds.
  abbrev pub over_cluster : Config
  over_cluster = record {
    Log = S;
    append = Distributed.append codec raft;
    read = Distributed.read libs node;
    authorize = authorize enforce;
    get_servers = Distributed.Cluster.get_servers calls;
  }

  -- Raft's promise is about the node's log, and the log that is put into the state is the node's.
  pub record Serves (commits : Commits libs codec S raft) : Type 0 where
    pub same : (s : S) → commits.log_of s ≡ node.log_of s
    pub put : (l : Log) (s : S) → node.log_of (node.put_log l s) ≡ l

  -- Reading the node's log.
  read-result :
      (off : ℕ) (s : S)
      → (Distributed.read libs node off s).0 ≡ (Log.read libs off (node.log_of s)).0
  unfolding Distributed.read
  read-result off s = refl

  call-allowed {ℓ} :
      {A : Type ℓ} (peer : Peer) (ctx : Context) (handler : Context → Exec S A) (s : S)
      → authenticate peer ≡ ok ctx
      → call peer handler s ≡ handler ctx s
  unfolding call
  call-allowed peer ctx handler s e = rw e refl

  produce-result :
      (ctx : Context) (r : Option Record) (s : S) (off : ℕ)
      → allow over_cluster ctx produce_action ≡ ok tt
      → (Distributed.append codec raft r s).0 ≡ ok off
      → produce over_cluster ctx (record { value = r }) s
        ≡ (ok (record { offset = off }), (Distributed.append codec raft r s).1)
  unfolding produce
  produce-result ctx r s off a e = rw (a, e) refl

  consume-result :
      (ctx : Context) (off : ℕ) (s : S) (r : Record)
      → allow over_cluster ctx consume_action ≡ ok tt
      → (Distributed.read libs node off s).0 ≡ ok r
      → (consume over_cluster ctx (record { offset = off }) s).0 ≡ ok (record { value = r })
  unfolding consume
  consume-result ctx off s r a e = rw (a, e) refl

  -- From end to end: a client with the right to produce calls Produce on a leader whose commands
  -- Raft commits and whose log is in its invariant, with a record that both Marshals accept, with
  -- a payload below 2 ^ 48 bytes and an offset below 2 ^ 63; it gets the next offset of the
  -- server's log. A client with the right to consume that then calls Consume at this offset gets
  -- the record.
  pub consume-produce-call :
      (reliable : Reliable libs) (faithful : Faithful codec) (commits : Commits libs codec S raft)
      → Serves commits
      → (producer consumer : Peer) (ctx ctx' : Context) (s : S) (first : ℕ) (qs : List Payload)
        (r : Record) (b : List ℕ) (p : Payload)
      → authenticate producer ≡ ok ctx
      → authenticate consumer ≡ ok ctx'
      → allow over_cluster ctx produce_action ≡ ok tt
      → allow over_cluster ctx' consume_action ≡ ok tt
      → commits.Leads s
      → Holds (node.log_of s) first qs
      → Fits r
      → Fits (record r { offset = first + length qs })
      → codec.marshal_request (record { value = some r }) ≡ ok b
      → libs.marshal (record r { offset = first + length qs }) ≡ ok p
      → length p < 2 ^ 48
      → first + length qs + 1 < 2 ^ 63
      → ((call producer (λ c. produce over_cluster c (record { value = some r })) s).0
          ≡ ok (record { offset = first + length qs }))
        × ((call consumer
              (λ c. consume over_cluster c (record { offset = first + length qs }))
              (call producer (λ c. produce over_cluster c (record { value = some r })) s).1).0
            ≡ ok (record { value = record r { offset = first + length qs } }))
  consume-produce-call reliable faithful commits serves producer consumer ctx ctx' s first qs r b p
        auth auth' may may' leads h fits fits' m m' small top =
      let off : ℕ = first + length qs in
      let (result, holds) =
        append-replicated libs reliable codec faithful S raft commits s first qs r b p leads
          (rw (serves.same s) h) fits m m' small top in
      let now : S = (Distributed.append codec raft (some r) s).1 in
      let held : Holds (node.log_of now) first (qs ++ (p ∷ [])) = rw (serves.same now) at holds in
      let read =
        read-Holds libs (node.log_of now) first (qs ++ (p ∷ [])) held (length qs) p
          (get_elem?-append_right qs (p ∷ []) (length qs) 0 (omega arith)) in
      let gives = read-result off now ∙ read.0 ∙ reliable.unmarshal-marshal _ p fits' m' in
      let produced =
        call-allowed producer ctx (λ c. produce over_cluster c (record { value = some r })) s auth
        ∙ produce-result ctx (some r) s off may result in
      rw produced (
        refl,
        rw
            (call-allowed consumer ctx' (λ c. consume over_cluster c (record { offset = off })) now
              auth')
            (consume-result ctx' off now _ may' gives),
      )
