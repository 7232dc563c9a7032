-- ===== src/NodeClient/Steps/Returning.antt =====
-- node_client/src/context.hpp: what a command that returned has done.
use sp2p.Prelude.{
  String, Bool, true, false, ◌≡◌, refl, Option, none, some, lookup, has_key, arith, if◌then◌else◌,
}
use sp2p.Sercli.Manager.{Manager, Result}
use sp2p.Sercli.Manager
use sp2p.NodeClient.Options.{VariablesMap, Value}
use sp2p.NodeClient.Options
use sp2p.NodeClient.State.{
  Client, Command, Attempt, done, throws, Failure, command_exception, raise, gets, or_raise, ◌>>=◌,
  continue, text_of, as_text, required, of_manager,
}

-- A run that returns.
abbrev pub Returns : {A : Type 0} → Command A → Client → Client → A → Type 0
Returns m c c' a = m c ≡ (c', done a)

module _ {A B : Type 0} where
  continued :
      (p : Client × Attempt A) (f : A → Command B) (c' : Client) (b : B)
      → continue p f ≡ (c', done b)
      → (c1 : Client) × (a : A) × (p ≡ (c1, done a)) × Returns (f a) c1 c' b
  continued (c1, done a) f c' b e = (c1, a, refl, e)
  continued (c1, throws x) f c' b e = absurd (ground arith)

  -- Both parts have returned.
  pub returned_bind :
      (m : Command A) (f : A → Command B) (c c' : Client) (b : B)
      → Returns (m >>= f) c c' b
      → (c1 : Client) × (a : A) × Returns m c c1 a × Returns (f a) c1 c' b
  unfolding ◌>>=◌
  returned_bind m f c c' b e = continued (m c) f c' b e

-- Reading the state changes nothing.
pub returned_gets :
    {A B : Type 0} (g : Client → A) (f : A → Command B) (c c' : Client) (b : B)
    → Returns (gets g >>= f) c c' b
    → Returns (f (g c)) c c' b
unfolding ◌>>=◌
returned_gets g f c c' b e = e

returned_text :
    (o : Option Value) (c c' : Client) (s : String)
    → Returns (text_of o) c c' s
    → (c' ≡ c) × (o ≡ some (Options.text s))
returned_text none c c' s e = absurd (ground arith)
returned_text (some Options.flag) c c' s e = absurd (ground arith)
returned_text (some (Options.number n)) c c' s e = absurd (ground arith)
returned_text (some (Options.boolean b)) c c' s e = absurd (ground arith)
returned_text (some (Options.text t)) c c' s e = (ground arith, ground arith)

pub returned_as_text :
    (vm : VariablesMap) (key : String) (c c' : Client) (s : String)
    → Returns (as_text vm key) c c' s
    → (c' ≡ c) × (lookup key vm ≡ some (Options.text s))
unfolding as_text
returned_as_text vm key c c' s e = returned_text (lookup key vm) c c' s e

required_from :
    (b : Bool) (vm : VariablesMap) (key : String) (c c' : Client) (s : String)
    → (if b then as_text vm key else raise command_exception) c ≡ (c', done s)
    → (c' ≡ c) × (lookup key vm ≡ some (Options.text s))
required_from true vm key c c' s e = returned_as_text vm key c c' s e
required_from false vm key c c' s e = absurd (ground arith)

pub returned_required :
    (vm : VariablesMap) (key : String) (c c' : Client) (s : String)
    → Returns (required vm key) c c' s
    → (c' ≡ c) × (lookup key vm ≡ some (Options.text s))
unfolding required
returned_required vm key c c' s e = required_from (has_key key vm) vm key c c' s e

pub returned_or_raise :
    {A : Type 0} (f : Failure) (o : Option A) (c c' : Client) (a : A)
    → Returns (or_raise f o) c c' a
    → (c' ≡ c) × (o ≡ some a)
returned_or_raise f none c c' a e = absurd (ground arith)
returned_or_raise f (some b) c c' a e = (ground arith, ground arith)

returned_attempt :
    {A : Type 0} (r : Result A) (c c' : Client) (a : A)
    → Returns (of_manager (λ _. r)) c c' a
    → (c' ≡ c) × (r ≡ Manager.returns a)
returned_attempt (Manager.returns b) c c' a e = (ground arith, ground arith)
returned_attempt (Manager.throws x) c c' a e = absurd (ground arith)

pub returned_of_manager :
    {A : Type 0} (method : Manager → Result A) (c c' : Client) (a : A)
    → Returns (of_manager method) c c' a
    → (c' ≡ c) × (method c.manager ≡ Manager.returns a)
returned_of_manager method c c' a e = returned_attempt (method c.manager) c c' a e
