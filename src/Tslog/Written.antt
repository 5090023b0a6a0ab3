-- ===== src/Tslog/Written.antt =====
-- What a logger of logging/tslog/tslog.go writes.
use cubic_go_playground.Prelude.{
  ℕ, ◌≡◌, refl, ap, ◌∙◌, List, [], ◌∷◌, none, some, Bytes, if◌then◌else◌, arith,
}
use cubic_go_playground.Prelude.{ℤ}
use cubic_go_playground.Tslog.Attrs.{Attr}
use cubic_go_playground.Tslog.Logger.{
  Config, Record, Handlers, Effect, handles, prints_failure, Logger, le, new_handler,
  new_logger_with_handler, new_logger, with_attrs, with_group, enabled, write, log,
}

-- A call that makes a logger of a logger.
pub data Derivation : Type 0 where
  attrs : List Attr → Derivation
  group : Bytes → Derivation

module _ {H : Type 0} (ops : Handlers H) where
  abbrev pub derived : Logger H → List Derivation → Logger H
  derived l [] = l
  derived l (attrs a ∷ ds) = derived (with_attrs ops l a) ds
  derived l (group g ∷ ds) = derived (with_group ops l g) ds

  -- The handler that has all of it.
  abbrev pub handler_with : H → List Derivation → H
  handler_with h [] = h
  handler_with h (attrs a ∷ ds) = handler_with (ops.with_attrs h a) ds
  handler_with h (group g ∷ ds) = handler_with (ops.with_group h g) ds

  abbrev pub written : H → Record → List (Effect H)
  written h r =
      handles h r ∷ elim (ops.handle h r) [ none ↦ [] | some err ↦ prints_failure err ∷ [] ]

  derived-handler_with :
      (l : Logger H) (ds : List Derivation)
      → derived l ds ≡ record l { handler = handler_with l.handler ds }
  unfolding with_attrs with_group
  derived-handler_with l [] = refl
  derived-handler_with l (attrs a ∷ ds) = derived-handler_with (with_attrs ops l a) ds
  derived-handler_with l (group g ∷ ds) = derived-handler_with (with_group ops l g) ds

  -- A logger that is made of a configuration, with attributes and groups in any order, hands a
  -- message on if its level is at least the configured one, once, to the configured handler with
  -- these attributes and groups, with the time unless it is switched off, and prints the handler's
  -- failure; else it does nothing.
  pub log-written :
      (c : Config) (ds : List Derivation) (now : ℕ) (level : ℤ) (msg : Bytes) (a : List Attr)
      → log ops (derived (new_logger ops c) ds) now level msg a ≡ (
          if le c.level level
          then written (handler_with (new_handler ops c) ds) (record {
            time = if c.no_time then none else some now;
            level = level;
            msg = msg;
            attrs = a;
          })
          else [])
  unfolding log write enabled new_logger new_logger_with_handler
  log-written c ds now level msg a =
      let h : H = handler_with (new_handler ops c) ds in
      let answered : log ops (record { level = c.level; no_time = c.no_time; handler = h }) now
            level msg a
          ≡ (if le c.level level
              then written h (record {
                time = if c.no_time then none else some now;
                level = level;
                msg = msg;
                attrs = a;
              })
              else []) =
        ground arith in
      ap (λ l. log ops l now level msg a) (derived-handler_with (new_logger ops c) ds) ∙ answered
