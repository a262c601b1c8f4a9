-- ===== src/BgJobs/Codec.antt =====
-- Reading back the records that harness/bg_jobs.py writes.
use jaros_code.Prelude.{
  String, ◌≡◌, refl, ap, ◌∙◌, some, [], ◌∷◌, inl, inr, Bool-cases, str_eq, eq_refl,
}
use jaros_code.Value.{Value, str, get}
use jaros_code.BgJobs.{
  Files, Contents, json, contents_of, set_contents, JobRecord, Os, State, encode, decode,
  read_record, write_record,
}

-- Reading a file after a write to it.
pub contents_of-set_contents :
    (files : Files) (id : String) (new : Contents)
    → contents_of (set_contents files id new) id ≡ new
unfolding contents_of set_contents
contents_of-set_contents [] id new = rw (eq_refl id)
contents_of-set_contents ((name, c) ∷ files) id new = elim (Bool-cases (str_eq name id)) [
  | inl same ↦ rw (same, same)
  | inr other ↦ rw (other, other) (contents_of-set_contents files id new)
]

module _ {Time W : Type 0} (os : Os Time W) where
  -- What the records rely on: `str` keeps a text, a time survives its number, and a write leaves
  -- the value that was written.
  pub record IsFaithful : Type 0 where
    pub show_str : (t : String) → os.show (str t) ≡ t
    pub times : (t : Time) → os.to_time (os.of_time t) ≡ some t
    pub writes : (w : W) (v : Value) (c : Contents) → os.after_write w v c ≡ json v

  pub decode-encode :
      (job_id : String) (r : JobRecord Time)
      → IsFaithful
      → decode os job_id (json (encode os.of_time r)) ≡ some r
  unfolding decode encode get
  decode-encode job_id r f = rw (
    f.times r.started_at,
    f.show_str r.id,
    f.show_str r.request,
    f.show_str r.status,
    f.show_str r.log_path,
  )

  pub read_record-write_record :
      (r : JobRecord Time) (s : State W)
      → IsFaithful
      → read_record os r.id (write_record os r s) ≡ some r
  unfolding write_record
  read_record-write_record r s f =
      ap (decode os r.id) (
        contents_of-set_contents s.files r.id
          (os.after_write s.world (encode os.of_time r) (contents_of s.files r.id)))
      ∙ ap (decode os r.id) (f.writes s.world (encode os.of_time r) (contents_of s.files r.id))
      ∙ decode-encode r.id r f

  -- The files do not matter to the outside world.
  pub write_record-world :
      (r : JobRecord Time) (s : State W) → (write_record os r s).world ≡ s.world
  unfolding write_record
  write_record-world r s = refl
