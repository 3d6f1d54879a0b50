-- ===== src/Database/Grant.antt =====
-- The replication grant of the peer (ensureReplicationHBA of src/bootstrap.go).
use pg_guard.Prelude.{
  ℕ, ◌≡◌, ◌⊎◌, refl, ap, true, false, none, some, ◌∷◌, [], ◌++◌, Text, lit, is_empty, IsLine,
  trim_right, trim_left, trim_space, keep_unless_blank, has_prefix-append, arith, Bool-cases, inl,
  inr,
}
use pg_guard.Config.{Config, has_peer}
use pg_guard.Node.{Node, Env, ok, resolved_peer, reloaded_config}
use pg_guard.Node.Monad.{log}
use pg_guard.Node.History.{newest}
use pg_guard.Hba.{hba_upsert_line}
use pg_guard.Hba.Upsert.{IsRule}
use pg_guard.Database.{auth_mode, replication_prefix, replication_rule, ensure_replication_hba}
use pg_guard.Database.Ensure.{update_hba_ok}

is_empty-append : (a b : Text) → is_empty b ≡ false → is_empty (a ++ b) ≡ false
is_empty-append [] b h = h
is_empty-append (c ∷ a) b h = refl

keep_unless_blank_lem : (c : ℕ) (s : Text) → is_empty s ≡ false → keep_unless_blank c s ≡ c ∷ s
keep_unless_blank_lem c [] h = absurd (ground (arith, h))
keep_unless_blank_lem c (d ∷ s) h = refl

trim_right-append :
    (a b : Text) → trim_right b ≡ b → is_empty b ≡ false → trim_right (a ++ b) ≡ a ++ b
unfolding trim_right
trim_right-append [] b t n = t
trim_right-append (c ∷ a) b t n =
    rw (trim_right-append a b t n) (keep_unless_blank_lem c (a ++ b) (is_empty-append a b n))

IsLine-append : (a b : Text) → IsLine a → IsLine b → IsLine (a ++ b)
IsLine-append [] b h k = k
IsLine-append (c ∷ a) b h k = (h.0, IsLine-append a b h.1 k)

module _ (cfg : Config) where
  auth_mode_trimmed : trim_right (auth_mode cfg) ≡ auth_mode cfg
  unfolding trim_right
  auth_mode_trimmed = elim (Bool-cases (is_empty cfg.postgres_password)) [
    | inl unset ↦ rw unset refl
    | inr set ↦ rw set refl
  ]

  auth_mode_given : is_empty (auth_mode cfg) ≡ false
  auth_mode_given = ground arith

  auth_mode-IsLine : IsLine (auth_mode cfg)
  auth_mode-IsLine = elim (Bool-cases (is_empty cfg.postgres_password)) [
    | inl unset ↦ rw unset (ground arith)
    | inr set ↦ rw set (ground arith)
  ]

  -- The end of the rule, from the mask of the address on.
  abbrev rule_end : Text
  rule_end = lit "/32 " ++ auth_mode cfg

  rule_end-IsLine : IsLine rule_end
  rule_end-IsLine = IsLine-append (lit "/32 ") (auth_mode cfg) (ground arith) auth_mode-IsLine

  trim_right-replication_rule :
      (address : Text) → trim_right (replication_rule cfg address) ≡ replication_rule cfg address
  trim_right-replication_rule address =
      trim_right-append (replication_prefix cfg) (address ++ rule_end)
        (trim_right-append address rule_end
          (trim_right-append (lit "/32 ") (auth_mode cfg) auth_mode_trimmed auth_mode_given) refl)
        (is_empty-append address rule_end refl)

  trim_space-replication_rule :
      (address : Text) → trim_space (replication_rule cfg address) ≡ replication_rule cfg address
  unfolding trim_space trim_left
  trim_space-replication_rule address = ap trim_left (trim_right-replication_rule address)

  replication_rule-IsRule :
      (address : Text)
      → IsLine cfg.repl_user
      → IsLine address
      → IsRule (replication_prefix cfg) (replication_rule cfg address)
  replication_rule-IsRule address u a = record {
    one_line =
        IsLine-append (replication_prefix cfg) (address ++ rule_end)
          (IsLine-append (lit "host replication ") (cfg.repl_user ++ lit " ") (ground arith)
            (IsLine-append cfg.repl_user (lit " ") u (ground arith)))
          (IsLine-append address rule_end a rule_end-IsLine);
    trimmed = trim_space-replication_rule address;
    prefixed = has_prefix-append (replication_prefix cfg) (address ++ rule_end);
  }

  -- On a node with a peer whose address is found, a refresh of the replication grant that reports
  -- success leaves a pg_hba.conf that holds the rule for that address and the configured user, so
  -- that the same update would change nothing; and if it changed the file, its last act was to have
  -- postgres reload it. The user's name and the address must hold no newline.
  pub replication_grant_fresh :
      (env : Env) (s : Node) (address : Text)
      → IsLine cfg.repl_user
      → IsLine address
      → has_peer cfg ≡ true
      → env.peer_address s.trace ≡ some address
      → (ensure_replication_hba env cfg s).0 ≡ ok
      → let s' = (ensure_replication_hba env cfg s).1 in
        (hba_upsert_line (replication_prefix cfg) (replication_rule cfg address) s'.hba ≡ none)
        × ((s'.hba ≡ s.hba) ⊎ (newest s'.trace ≡ some (reloaded_config true)))
  unfolding ensure_replication_hba
  replication_grant_fresh env s address u a peer found =
      let t = log (resolved_peer (some address)) s in
      rw (peer, found)
        (λ done.
          update_hba_ok env (replication_prefix cfg) (replication_rule cfg address) t
            (replication_rule-IsRule address u a) done)
