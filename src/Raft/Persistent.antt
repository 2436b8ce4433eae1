-- ===== src/Raft/Persistent.antt =====
-- internal/raft/types.go: which persistent states a store may hold and a node may load.
use rivet_db.Prelude.{
  ℕ, ◌+◌, ◌-◌, ◌^◌, Bool, true, false, List, [], ◌∷◌, ◌&&◌, ◌||◌, leb, ◌==◌, not, if◌then◌else◌,
  length, Result, ok, err, guard,
}
use rivet_db.Raft.Types.{
  Entry, Configuration, PersistentState, Error, invalid_state, entry_no_op, entry_config,
  max_command_bytes, valid_entry_type,
}
use rivet_db.Raft.Membership.{validate, decode}

abbrev pub passes : {A : Type 0} → Result Error A → Bool
passes (ok a) = true
passes (err e) = false

-- The test of one entry, at the index that its place demands.
abbrev pub valid_entry : ℕ → ℕ → ℕ → Entry → Bool
valid_entry want last_term hard_term e =
    e.index == want
    && (not (e.term == 0)
        && (leb last_term e.term
            && (leb e.term hard_term
                && (valid_entry_type e.kind
                    && (leb (length e.command) max_command_bytes
                        && ((not (e.kind == entry_no_op) || length e.command == 0)
                            && (not (e.kind == entry_config) || passes (decode e.command))))))))

abbrev pub valid_log : ℕ → ℕ → ℕ → List Entry → Bool
valid_log want last_term hard_term [] = true
valid_log want last_term hard_term (e ∷ es) =
    valid_entry want last_term hard_term e && valid_log (want + 1) e.term hard_term es

abbrev pub log_term : ℕ → List Entry → ℕ
log_term t [] = t
log_term t (e ∷ es) = log_term e.term es

abbrev valid_config : Configuration → Bool
valid_config c = c.version == 0 || passes (validate c)

-- `validatePersistent`: every failure is `ErrInvalidState`, so the tests form one conjunction.
unfoldable pub validate_persistent : PersistentState → Result Error (Unit {0})
validate_persistent s =
    guard
      (valid_config s.config
        && (not (s.hard_state.term == 0 && not (s.hard_state.voted_for == 0))
            && ((if s.snapshot.index == 0 then s.snapshot.term == 0 else not (s.snapshot.term == 0))
                && (leb (length s.snapshot.payload) max_command_bytes
                    && (valid_config s.snapshot.config
                        && (leb s.snapshot.index (2 ^ 64 - 1 - length s.entries)
                            && (valid_log (s.snapshot.index + 1) s.snapshot.term s.hard_state.term
                                  s.entries
                                && (leb (log_term s.snapshot.term s.entries) s.hard_state.term
                                    && leb s.snapshot.term s.hard_state.term))))))))
      invalid_state
