-- ===== src/Distributed/Setup/Fresh.antt =====
-- NewDistributedLog (internal/log/distributed.go) on a machine that has no data yet.
use proglog.Base.{
  ℕ, ◌<◌, ◌^◌, ◌≡◌, refl, List, [], ◌∷◌, none, some, Bool, true, false, ap, ◌∙◌, length, get_elem?,
  not, ◌&&◌, arith, if◌then◌else◌, ◌⊎◌, inl, inr,
}
use proglog.Base.Exec.{Result, ok}
use proglog.Api.{Libs, Reliable}
use proglog.Disk
use proglog.Disk.{Disk}
use proglog.Segment
use proglog.Segment.Create.{Works, IsSound}
use proglog.Log.{Log, new_log, default_bytes}
use proglog.Log.Refine.{Holds}
use proglog.Log.Create.{new_log-Holds}
use proglog.Distributed.Bounds.{new_log_store, raft_config}
use proglog.Distributed.LogStore.{RaftLog, Storable, store_logs, store_logs-Stored, to_record}
use proglog.Segment.Layout.{Payload}
use proglog.Distributed.Setup.{
  Config, RaftLibrary, Starting, Attached, setup_log, setup_raft, new_distributed_log,
  raft_settings, this_server,
}

-- There is no file yet: the directory is not there, or empty.
abbrev pub IsNew : Disk → Type 0
IsNew d = (d.fault ≡ none) × ((d.exists ≡ false) ⊎ (d.files ≡ []))

mkdir_new :
    (d : Disk)
    → IsNew d
    → (Disk.mkdir_all d ≡ (ok tt, (Disk.mkdir_all d).1))
      × Works (Disk.mkdir_all d).1
      × ((Disk.mkdir_all d).1.files ≡ [])
unfolding Disk.mkdir_all
mkdir_new d (f, inl e) = (
  rw (f, e) refl,
  record { exists = rw (f, e) refl; healthy = ground (arith, f, e) },
  rw (f, e) refl,
)
mkdir_new d (f, inr e) = (
  rw f refl,
  record { exists = ground (arith, f); healthy = ground (arith, f) },
  ground (arith, f, e),
)

-- The files that Raft keeps of its own can be made.
pub record Succeeds (E : Type 0) (lib : RaftLibrary E) : Type 0 where
  pub bolt : (e : E) → (lib.new_bolt_store e).0 ≡ ok tt
  pub snapshots : (e : E) → (lib.new_file_snapshot_store 1 e).0 ≡ ok tt

module _ (libs : Libs) (E : Type 0) (lib : RaftLibrary E) (c : Config) where
  -- Raft's state when setupRaft calls NewRaft.
  abbrev pub prepared : E → E
  prepared e = (lib.new_file_snapshot_store 1 (lib.new_bolt_store e).1).1

  -- What setupRaft passes to NewRaft: the logs that NewLog has made of the two directories.
  abbrev pub handed : Starting E → Attached E
  handed w = record {
    raft = prepared w.raft;
    store = (new_log_store libs (Disk.mkdir_all w.raft_dir).1 c.segment).1;
    log = (new_log libs (Disk.mkdir_all w.log_dir).1 c.segment).1;
  }

  -- The state behind each of the three calls.
  abbrev pub begun : Attached E → Attached E
  begun a = (lib.new_raft (raft_settings lib.default_config c.raft) a).1

  abbrev pub asked : Attached E → Attached E
  asked a = (lib.has_existing_state (begun a)).1

  abbrev pub bootstrapped : Attached E → Attached E
  bootstrapped a = (lib.bootstrap_cluster (this_server c ∷ []) (asked a)).1

  -- What Raft documents of its start with an empty logStore and no snapshot: NewRaft and
  -- HasExistingState write to neither log, and BootstrapCluster, where there was no state, stores
  -- `entry`, the first one, with the configuration.
  pub record Begins (entry : RaftLog) (a : Attached E) (b : Bool) : Type 0 where
    pub begins : (lib.new_raft (raft_settings lib.default_config c.raft) a).0 ≡ ok tt
    pub begun_store : (begun a).store ≡ a.store
    pub begun_log : (begun a).log ≡ a.log
    pub state : (lib.has_existing_state (begun a)).0 ≡ ok b
    pub asked_store : (asked a).store ≡ (begun a).store
    pub asked_log : (asked a).log ≡ (begun a).log
    pub bootstraps : b ≡ false → (lib.bootstrap_cluster (this_server c ∷ []) (asked a)).0 ≡ ok tt
    pub stores :
        b ≡ false → (bootstrapped a).store ≡ (store_logs libs (entry ∷ []) (asked a).store).1
    pub keeps : b ≡ false → (bootstrapped a).log ≡ (asked a).log

  -- The logStore has the entry of the configuration, or nothing.
  abbrev pub Entered : RaftLog → Bool → List Payload → Type 0
  Entered entry true ps =
      (p : Payload) × (ps ≡ p ∷ [])
      × (libs.unmarshal p ≡ ok (record (to_record entry) { offset = 1 }))
  Entered entry false ps = ps ≡ []

  -- What a new server starts with.
  pub record Started (entry : RaftLog) (first : ℕ) (a : Attached E) (b : Bool)
      (out : Result (Unit {0}) × Starting E) : Type 0 where
    pub okay : out.0 ≡ ok tt
    pub log : Log
    pub store : Log
    pub entries : List Payload
    pub is_log : out.1.log ≡ some log
    pub is_store : out.1.store ≡ some store
    pub log_holds : Holds log first []
    pub store_holds : Holds store 1 entries
    pub entered : Entered entry (c.bootstrap && not b) entries
    pub raft : out.1.raft ≡ (if c.bootstrap && not b then bootstrapped a else asked a).raft

-- The sizes of the configuration, or the defaults, leave room for a record.
abbrev pub HasRoomFor : Segment.Config → Type 0
HasRoomFor c = IsSound (record c {
  max_store_bytes = default_bytes c.max_store_bytes;
  max_index_bytes = default_bytes c.max_index_bytes;
})

single : (ps : List Payload) (p : Payload) → length ps ≡ 1 → get_elem? ps 0 ≡ some p → ps ≡ p ∷ []
single [] p n g = absurd cc
single (q ∷ []) p n g = let same : q ≡ p = cc in rw same refl
single (q ∷ r ∷ ps) p n g = absurd (omega arith)

module _ (libs : Libs) (reliable : Reliable libs) (E : Type 0) (lib : RaftLibrary E)
    (succeeds : Succeeds E lib) (c : Config) (w : Starting E) (sound : HasRoomFor c.segment) where
  log_dir : Disk
  log_dir = (Disk.mkdir_all w.log_dir).1

  raft_dir : Disk
  raft_dir = (Disk.mkdir_all w.raft_dir).1

  new_log_of : Log
  new_log_of = (new_log libs log_dir c.segment).1

  new_store_of : Log
  new_store_of = (new_log_store libs raft_dir c.segment).1

  with_log : Starting E
  with_log = record w { log = some new_log_of; log_dir = new_log_of.disk }

  log-Holds :
      IsNew w.log_dir
      → c.segment.initial_offset < 2 ^ 63
      → ((new_log libs log_dir c.segment).0 ≡ ok tt) × Holds new_log_of c.segment.initial_offset []
  unfolding new_log_of log_dir
  log-Holds new top =
      let (_, works, empty) = mkdir_new w.log_dir new in
      new_log-Holds libs reliable (Disk.mkdir_all w.log_dir).1 c.segment works empty sound top

  store-Holds :
      IsNew w.raft_dir
      → ((new_log_store libs raft_dir c.segment).0 ≡ ok tt) × Holds new_store_of 1 []
  unfolding new_store_of raft_dir new_log_store
  store-Holds new =
      let (_, works, empty) = mkdir_new w.raft_dir new in
      new_log-Holds libs reliable (Disk.mkdir_all w.raft_dir).1 (raft_config c.segment) works empty
        (record {
          store_room = sound.store_room;
          store_top = sound.store_top;
          index_room = sound.index_room;
          index_top = sound.index_top;
        })
        (omega arith)

  setup_log-new :
      IsNew w.log_dir → c.segment.initial_offset < 2 ^ 63 → setup_log libs c w ≡ (ok tt, with_log)
  unfolding setup_log with_log new_log_of log_dir
  setup_log-new new top =
      let okay : (new_log libs (Disk.mkdir_all w.log_dir).1 c.segment).0 ≡ ok tt =
        (log-Holds new top).0 in
      ground (arith, (mkdir_new w.log_dir new).0, okay)

  passed : Attached E
  passed = handed libs E lib c w

  at_end : Bool → Attached E
  at_end true = bootstrapped libs E lib c passed
  at_end false = asked libs E lib c passed

  ended : Bool → Starting E
  ended x = record with_log {
    raft_dir = new_store_of.disk;
    raft = (at_end x).raft;
    store = some (at_end x).store;
    log = some (at_end x).log;
  }

  setup_raft-new :
      (entry : RaftLog) (b x : Bool)
      → c.bootstrap && not b ≡ x
      → IsNew w.raft_dir
      → Begins libs E lib c entry passed b
      → setup_raft libs lib c with_log ≡ (ok tt, ended x)
  unfolding setup_raft ended at_end with_log new_store_of raft_dir new_log_of log_dir passed
  setup_raft-new entry b true e new begins =
      let okay : (new_log_store libs (Disk.mkdir_all w.raft_dir).1 c.segment).0 ≡ ok tt =
        (store-Holds new).0 in
      let fresh : b ≡ false = ground (arith, e) in
      ground (
        arith,
        (mkdir_new w.raft_dir new).0,
        okay,
        succeeds.bolt w.raft,
        succeeds.snapshots (lib.new_bolt_store w.raft).1,
        begins.begins,
        begins.state,
        begins.bootstraps fresh,
        e,
      )
  setup_raft-new entry b false e new begins =
      let okay : (new_log_store libs (Disk.mkdir_all w.raft_dir).1 c.segment).0 ≡ ok tt =
        (store-Holds new).0 in
      rw
        (
          (mkdir_new w.raft_dir new).0,
          okay,
          succeeds.bolt w.raft,
          succeeds.snapshots (lib.new_bolt_store w.raft).1,
          begins.begins,
          begins.state,
          e,
        )
        refl

  at_end-raft :
      (x : Bool)
      → (at_end x).raft
        ≡ (if x
            then bootstrapped libs E lib c (handed libs E lib c w)
            else asked libs E lib c (handed libs E lib c w)).raft
  unfolding at_end passed
  at_end-raft true = refl
  at_end-raft false = refl

  -- What the two logs are in the end.
  at_end-log :
      (entry : RaftLog) (b x : Bool)
      → c.bootstrap && not b ≡ x
      → Begins libs E lib c entry passed b
      → (at_end x).log ≡ new_log_of
  unfolding at_end passed new_log_of log_dir
  at_end-log entry b true e begins =
      begins.keeps (ground (arith, e)) ∙ begins.asked_log ∙ begins.begun_log
  at_end-log entry b false e begins = begins.asked_log ∙ begins.begun_log

  at_end-store :
      (entry : RaftLog) (b x : Bool)
      → c.bootstrap && not b ≡ x
      → Begins libs E lib c entry passed b
      → IsNew w.raft_dir
      → Storable libs 1 (entry ∷ [])
      → (ps : List Payload) × Holds (at_end x).store 1 ps × Entered libs E lib c entry x ps
  unfolding at_end passed
  at_end-store entry b true e begins new storable =
      let (_, holds) = store-Holds new in
      let (_, made) =
        store_logs-Stored libs reliable (entry ∷ []) new_store_of 1 [] holds storable in
      let (p, there, u) = made.decodes 0 entry refl in
      let same : (at_end true).store ≡ (store_logs libs (entry ∷ []) new_store_of).1 =
        unfold new_store_of raft_dir in
        begins.stores (ground (arith, e))
        ∙ ap (λ l. (store_logs libs (entry ∷ []) l).1) (begins.asked_store ∙ begins.begun_store) in
      (
        made.added,
        rw (← same) at made.holds,
        (p, single made.added p made.count there, rw storable.0 at u),
      )
  at_end-store entry b false e begins new storable =
      let same : (at_end false).store ≡ new_store_of =
        unfold new_store_of raft_dir in begins.asked_store ∙ begins.begun_store in
      ([], rw (← same) at (store-Holds new).1, refl)

  -- NewDistributedLog on a machine with no data, where Raft finds no state of its own and no
  -- snapshot, and the sizes leave room for a record: it succeeds; the state machine's log is empty
  -- and starts at the initial offset. The cluster is bootstrapped, with this server as the only one,
  -- exactly if the configuration says so and Raft had no state: then Raft's own log, which starts at
  -- one, has the entry of that configuration and no other; else it is empty. This is what it leaves
  -- before the goroutines that NewRaft starts have done anything.
  pub new_distributed_log-Started :
      (entry : RaftLog) (b : Bool)
      → IsNew w.log_dir
      → IsNew w.raft_dir
      → c.segment.initial_offset < 2 ^ 63
      → Begins libs E lib c entry (handed libs E lib c w) b
      → Storable libs 1 (entry ∷ [])
      → Started libs E lib c entry c.segment.initial_offset
          (handed libs E lib c w)
          b
          (new_distributed_log libs lib c w)
  unfolding new_distributed_log passed ended
  new_distributed_log-Started entry b new new' top begins storable =
      let x : Bool = c.bootstrap && not b in
      let (ps, holds, entered) = at_end-store entry b x refl begins new' storable in
      rw (setup_log-new new top, setup_raft-new entry b x refl new' begins)
        (record {
          okay = refl;
          log = (at_end x).log;
          store = (at_end x).store;
          entries = ps;
          is_log = refl;
          is_store = refl;
          log_holds = rw (← at_end-log entry b x refl begins) at (log-Holds new top).1;
          store_holds = holds;
          entered = entered;
          raft = at_end-raft x;
        })
