-- ===== src/Group/Named.antt =====
-- The ids of the people in a group (State.Admins and State.Members of internal/team/group.go).
use esec_vault.Base.{
  [], ◌≡◌, refl, sym, true, false, some, none, Option, List, Text, ok, arith, insert, Dict, text_eq,
  text_eq_refl, Entries, Entries-insert, Entries-lookup, >>=-eq-ok, require_that,
}
use mathlib.Core.Path.{subst}
use esec_vault.Envelope.{Envelope}
use esec_vault.Team.Types.{Person}
use esec_vault.Team.External.{Chains}
use esec_vault.Group.Types.{Link, LinkType, GroupKey}
use esec_vault.Group.State.{State, PersonState, CredState, active_in}
use esec_vault.Group.External.{External}
use esec_vault.Group.Creds.{set_key, new_cred}
use esec_vault.Group.Valid.{kms_name}
use esec_vault.Group.Persons.{new_person, ended, end_member}
use esec_vault.Group.Step.{step, verify}
use esec_vault.Group.Frame.{active_in-found, cred-found, step-Stepped, verify-keep}
use esec_vault.Group.Admins.{set_key-result}
use esec_vault.Group.Change.{
  Change, created, admin_added, admin_removed, member_added, member_removed, cred_added,
  workload_rekeyed, cred_removed, key_rotated,
}

abbrev pub PersonNamed : Text → PersonState → Type 0
PersonNamed k p = text_eq p.person.user k ≡ true

abbrev pub CredNamed : Text → CredState → Type 0
CredNamed k c = text_eq c.cred.id k ≡ true

pub record IsNamed (s : State) : Type 0 where
  pub admins : Entries PersonNamed s.admins
  pub members : Entries PersonNamed s.members
  pub creds : Entries CredNamed s.creds

ended-named :
    (user : Text) (m : Dict PersonState) (p : PersonState) (l : Link)
    → active_in user m ≡ some p
    → Entries PersonNamed m
    → Entries PersonNamed (insert user (ended p l) m)
ended-named user m p l there h =
    Entries-insert PersonNamed user (ended p l) m
      (Entries-lookup PersonNamed m user p h (active_in-found user m p there).0) h

end_member-named :
    (p : Person) (o : Option PersonState) (m t : Dict PersonState) (l : Link)
    → active_in p.user m ≡ o
    → end_member o p m l ≡ ok t
    → Entries PersonNamed m
    → Entries PersonNamed t
end_member-named p none m t l at made h = subst (Entries PersonNamed) (ground arith) h
end_member-named p (some a) m t l at made h =
    let (_, same, done) = >>=-eq-ok (require_that (text_eq a.person.root p.root) _) _ made in
    subst (Entries PersonNamed) (ground arith) (ended-named p.user m a l at h)

set_key-IsNamed :
    (s : State) (k : GroupKey) (l : Link) (t : State) → set_key s k l ≡ ok t → IsNamed s → IsNamed t
set_key-IsNamed s k l t made h =
    subst IsNamed (sym (set_key-result s k l t made))
      (record { admins = h.admins; members = h.members; creds = h.creds })

module _ (x : External) (s : State) (l : Link) where
  Change-IsNamed : (k : LinkType) (t : State) → Change x s l k t → IsNamed s → IsNamed t
  Change-IsNamed k _ (created b t at first made) h =
      let g = set_key-IsNamed s b.key l t made h in
      record {
        admins =
            Entries-insert PersonNamed b.creator.user (new_person b.creator [] l) t.admins
              (text_eq_refl b.creator.user) g.admins;
        members = g.members;
        creds = g.creds;
      }
  Change-IsNamed k _ (admin_added b members other done) h = record {
    admins =
        Entries-insert PersonNamed b.admin.user (new_person b.admin b.verified l) s.admins
          (text_eq_refl b.admin.user) h.admins;
    members =
        end_member-named b.admin (active_in b.admin.user s.members) s.members members l refl done
          h.members;
    creds = h.creds;
  }
  Change-IsNamed k _ (admin_removed b a present kept) h = record {
    admins = ended-named b.user s.admins a l present h.admins;
    members = h.members;
    creds = h.creds;
  }
  Change-IsNamed k _ (member_added b decoded other) h = record {
    admins = h.admins;
    members =
        Entries-insert PersonNamed b.member.user (new_person b.member b.verified l) s.members
          (text_eq_refl b.member.user) h.members;
    creds = h.creds;
  }
  Change-IsNamed k _ (member_removed b m why present may) h = record {
    admins = h.admins;
    members = ended-named b.user s.members m l present h.members;
    creds = h.creds;
  }
  Change-IsNamed _ _ (cred_added k c kind join adds may fresh keys group) h = record {
    admins = h.admins;
    members = h.members;
    creds =
        Entries-insert CredNamed c.id (new_cred c kind join l) s.creds (text_eq_refl c.id) h.creds;
  }
  Change-IsNamed k _ (workload_rekeyed id key c present is) h = record {
    admins = h.admins;
    members = h.members;
    creds =
        Entries-insert CredNamed id
          (record c { cred = record c.cred { kms = some key; enc_pub = kms_name x key } }) s.creds
          (Entries-lookup CredNamed s.creds id c h.creds (cred-found s id c present).0) h.creds;
  }
  Change-IsNamed k _ (cred_removed b c decoded present) h = record {
    admins = h.admins;
    members = h.members;
    creds =
        Entries-insert CredNamed b.id
          (record c {
            active = false;
            removed_seq = l.seq;
            removed_time = l.ctime;
            destroyed = b.destroyed;
            reason = b.reason;
          })
          s.creds (Entries-lookup CredNamed s.creds b.id c h.creds (cred-found s b.id c present).0)
          h.creds;
  }
  Change-IsNamed k _ (key_rotated key t version made) h = set_key-IsNamed s key l t made h
  Change-IsNamed k _ _ h = record { admins = h.admins; members = h.members; creds = h.creds }

module _ (x : External) (chains : Chains) where
  step-IsNamed :
      (s : State) (e : Envelope) (u : State)
      → step x chains s (some e) ≡ ok u
      → IsNamed s
      → IsNamed u
  step-IsNamed s e u made h =
      let st = step-Stepped x chains s e u made in
      let g = Change-IsNamed x s st.link _ st.applied st.change h in
      rw st.result (record { admins = g.admins; members = g.members; creds = g.creds })

  pub verify-IsNamed :
      (group : Text) (es : List (Option Envelope)) (u : State)
      → verify x chains group es ≡ ok u
      → IsNamed u
  verify-IsNamed group es u made =
      verify-keep x chains IsNamed step-IsNamed group es u made
        (record { admins = tt; members = tt; creds = tt })
