-- ===== src/Security/Proxies/Spoofing.antt =====
-- src/security/proxies.ts and `clientIp`: what a client itself sends as forwarding hops.
use Prim.Native.Char.{Char}
use Prim.Native.String
use stohr.Common.{◌∷◌, ◌++◌, String}

-- A header with an entry appended behind a comma.
abbrev pub appended_to : String → String → String
appended_to client entries = String.◌++◌ client (String.◌∷◌ "," entries)
