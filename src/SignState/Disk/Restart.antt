-- ===== src/SignState/Disk/Restart.antt =====
-- What a restart of the process finds on disk.
use horcrux.Prelude.{
  ◌≡◌, refl, ◌∙◌, ℕ, List, [], ◌∷◌, ◌++◌, String, string_Eq, ◌=?◌, =?-refl, true, false, some,
  arith, contents, Bool-cases, inl, inr,
}
use horcrux.Outcome.{Error, ok, err, same_hrs, message}
use horcrux.Hrs.{greater_than, eq_hrs}
use horcrux.SignState.{
  SignState, SignStateConsensus, consensus_key, latest_hrs, block_double_sign, advance, locked_copy,
  fresh_cache,
}
use horcrux.SignState.Watermark.{block_double_sign_lem}
use horcrux.SignState.Disk.{
  StateCodec, FileSystem, Disk, run, Writes, idle, later, dev_null, save, save_sign_state,
  load_sign_state, write_file, signal,
}

-- What is read back of a sign state that was written: its height, round, step and sign bytes.
pub record StateCodecLaws (codec : StateCodec) : Type 0 where
  pub encode : SignState → List ℕ
  pub decode : SignState → SignState
  pub marshal_lem : (s : SignState) → codec.marshal s ≡ some (encode s)
  pub unmarshal_lem : (s : SignState) → codec.unmarshal (encode s) ≡ some (decode s)
  pub decode_key : (s : SignState) → latest_hrs (decode s) ≡ latest_hrs s
  pub decode_sign_bytes : (s : SignState) → contents (decode s).sign_bytes ≡ contents s.sign_bytes

-- A path that names a regular file which can be written.
pub record IsWritable (fs : FileSystem) (path : String) : Type 0 where
  pub not_null : (path =? dev_null) ≡ false
  pub not_empty : (path =? "") ≡ false
  pub writes : fs.write_fails path ≡ false

latest_hrs-copy :
    (s : SignState) (ssc : SignStateConsensus)
    → latest_hrs (locked_copy (advance s ssc)) ≡ consensus_key ssc
unfolding locked_copy advance
latest_hrs-copy s ssc = refl

file_path-copy :
    (s : SignState) (ssc : SignStateConsensus)
    → (locked_copy (advance s ssc)).file_path ≡ s.file_path
unfolding locked_copy advance
file_path-copy s ssc = refl

refused :
    (t : SignState) (x : SignStateConsensus)
    → greater_than (consensus_key x) (latest_hrs t) ≡ false
    → (e : Error) × (block_double_sign t x ≡ err e)
refused t x h = elim (Bool-cases (eq_hrs (consensus_key x) (latest_hrs t))) [
  | inl same ↦ (same_hrs (consensus_key x), ground (arith, block_double_sign_lem t x))
  | inr lower ↦ (message "regression not allowed", ground (arith, block_double_sign_lem t x))
]

module _ {codec : StateCodec} (laws : StateCodecLaws codec) where
  open laws use {encode, decode, marshal_lem, unmarshal_lem, decode_key}

  save_sign_state_lem :
      (s : SignState) (fs : FileSystem)
      → IsWritable fs s.file_path
      → save_sign_state codec s fs ≡ ok (write_file s.file_path (encode s) fs)
  unfolding save_sign_state
  save_sign_state_lem s fs w = ground (arith, marshal_lem s)

  load-write :
      (path : String) (s : SignState) (fs : FileSystem)
      → load_sign_state codec path (write_file path (encode s) fs)
        ≡ ok (fresh_cache (record (decode s) { file_path = path }))
  unfolding load_sign_state write_file
  load-write path s fs = ground (arith, =?-refl path, unmarshal_lem s)

  latest_hrs-loaded :
      (path : String) (s : SignState)
      → latest_hrs (fresh_cache (record (decode s) { file_path = path })) ≡ latest_hrs s
  unfolding fresh_cache
  latest_hrs-loaded path s = decode_key s

  -- a save above the watermark, by its parts
  save-sync :
      (s : SignState) (ssc : SignStateConsensus) (d : Disk)
      → IsWritable d.fs s.file_path
      → greater_than (consensus_key ssc) (latest_hrs s) ≡ true
      → let copy = locked_copy (advance s ssc) in
        save codec false ssc s d
        ≡ ok (signal (advance s ssc), record d { fs = write_file s.file_path (encode copy) d.fs })
  unfolding save
  save-sync s ssc d w h = ground (
    arith,
    block_double_sign_lem s ssc,
    save_sign_state_lem (locked_copy (advance s ssc)) d.fs (unfold locked_copy advance in w),
    file_path-copy s ssc,
  )

  save-async :
      (s : SignState) (ssc : SignStateConsensus) (d : Disk)
      → greater_than (consensus_key ssc) (latest_hrs s) ≡ true
      → save codec true ssc s d
        ≡ ok (
          signal (advance s ssc),
          record d { pending = d.pending ++ locked_copy (advance s ssc) ∷ [] },
        )
  unfolding save
  save-async s ssc d h = ground (arith, block_double_sign_lem s ssc)

  -- A synchronous save above the watermark, to a path that can be written, survives a restart: the loaded
  -- state has the saved height, round and step as its watermark, and refuses a save at or below it.
  pub save-load_refuses :
      (s : SignState) (ssc x : SignStateConsensus) (d : Disk)
      → IsWritable d.fs s.file_path
      → greater_than (consensus_key ssc) (latest_hrs s) ≡ true
      → greater_than (consensus_key x) (consensus_key ssc) ≡ false
      → (s' : SignState) × (d' : Disk) × (t : SignState) × (save codec false ssc s d ≡ ok (s', d'))
        × (load_sign_state codec s.file_path d'.fs ≡ ok t)
        × (latest_hrs t ≡ consensus_key ssc)
        × (e : Error) × (block_double_sign t x ≡ err e)
  save-load_refuses s ssc x d w h below =
      let copy = locked_copy (advance s ssc) in
      let t : SignState = fresh_cache (record (decode copy) { file_path = s.file_path }) in
      let key : latest_hrs t ≡ consensus_key ssc =
        latest_hrs-loaded s.file_path copy ∙ latest_hrs-copy s ssc in
      (
        signal (advance s ssc),
        record d { fs = write_file s.file_path (encode copy) d.fs },
        t,
        save-sync s ssc d w h,
        load-write s.file_path copy d.fs,
        key,
        (refused t x (rw key below)).0,
        (refused t x (rw key below)).1,
      )

  -- Saves that go to goroutines can reach the disk in the other order: of two saves above the watermark,
  -- the second above the first, to a path that can be written, the first can be what the file holds when
  -- all writes are done, so that a restart has its height, round and step as the watermark, below the
  -- one that the process had.
  pub saves_may_swap :
      (s : SignState) (x y : SignStateConsensus) (fs : FileSystem)
      → IsWritable fs s.file_path
      → greater_than (consensus_key x) (latest_hrs s) ≡ true
      → greater_than (consensus_key y) (consensus_key x) ≡ true
      → (s' s'' : SignState) × (d d' d'' : Disk) × (t : SignState) × (save codec true x s
            (record { fs = fs; pending = [] })
          ≡ ok (s', d))
        × (save codec true y s' d ≡ ok (s'', d'))
        × Writes codec d' d''
        × (d''.pending ≡ [])
        × (load_sign_state codec s.file_path d''.fs ≡ ok t)
        × (latest_hrs s'' ≡ consensus_key y)
        × (latest_hrs t ≡ consensus_key x)
  saves_may_swap s x y fs w hx hy =
      let s' = signal (advance s x) in
      let a = locked_copy (advance s x) in
      let b = locked_copy (advance s' y) in
      let fs' = write_file s.file_path (encode b) fs in
      let fs'' = write_file s.file_path (encode a) fs' in
      (
        s',
        signal (advance s' y),
        record { fs = fs; pending = a ∷ [] },
        record { fs = fs; pending = a ∷ b ∷ [] },
        record { fs = fs''; pending = [] },
        fresh_cache (record (decode a) { file_path = s.file_path }),
        save-async s x (record { fs = fs; pending = [] }) hx,
        save-async s' y (record { fs = fs; pending = a ∷ [] }) (unfold signal advance in hy),
        later
            (later idle (
              run (a ∷ []) [] b fs' refl
                (unfold locked_copy advance signal in save_sign_state_lem b fs w) refl))
            (run [] [] a fs'' refl
              (unfold locked_copy advance signal write_file in
                save_sign_state_lem a fs'
                  (record { not_null = w.not_null; not_empty = w.not_empty; writes = w.writes }))
              refl),
        refl,
        load-write s.file_path a fs',
        unfold signal advance in refl,
        latest_hrs-loaded s.file_path a ∙ latest_hrs-copy s x,
      )
