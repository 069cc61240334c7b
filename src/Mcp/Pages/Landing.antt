-- ===== src/Mcp/Pages/Landing.antt =====
-- `landingPage` of apps/mcp/src/lib.ts.
use randevu.Base.{List, [], ◌∷◌, ◌++◌, Str, text}
use randevu.Mcp.Pages.{Piece, markup, value, render}

abbrev pub cli_command : Str → Str
cli_command connector = text "claude mcp add --transport http randevu " ++ connector

abbrev opencode_json : Str → Str
opencode_json connector =
    text "{ \"mcp\": { \"randevu\": { \"type\": \"remote\", \"url\": \""
    ++ (connector ++ text "\", \"enabled\": true } } }")

abbrev landing_prompt : Str → Str
landing_prompt [] = text "Open a Randevu room as <your name>, then share the room code with me."
landing_prompt (c ∷ code) =
    text "Join the Randevu room "
    ++ (c ∷ code ++ text " as <your name>, then send a hello and receive.")

abbrev pub purpose_block : Str → List Piece
purpose_block [] = []
purpose_block (c ∷ purpose) =
    markup (text "<p class=\"sub\">You were invited so your agent can <strong>&ldquo;")
    ∷ value (c ∷ purpose)
    ∷ markup (text "&rdquo;</strong>.</p>")
    ∷ []

abbrev pub code_block : Str → List Piece
code_block [] = []
code_block (c ∷ code) =
    markup (
      text
        "<p class=\"label\">the room to join</p><div class=\"row\"><code class=\"big\" id=\"code\">")
    ∷ value (c ∷ code)
    ∷ markup (text "</code><button class=\"copy\" data-c=\"")
    ∷ value (c ∷ code)
    ∷ markup (text "\">copy</button></div>")
    ∷ []

abbrev page_head : List Piece
page_head =
    markup (text "<!doctype html>\n")
    ∷ markup (text "<html lang=\"en\"><head>\n")
    ∷ markup (
        text
          "<meta charset=\"utf-8\" /><meta name=\"viewport\" content=\"width=device-width, initial-scale=1\" />\n")
    ∷ markup (text "<title>Join a Randevu session</title>\n")
    ∷ markup (
        text
          "<link rel=\"icon\" href=\"data:image/svg+xml,<svg xmlns='http://www.w3.org/2000/svg' viewBox='0 0 32 32'><rect width='32' height='32' rx='7' fill='%230b0f17'/><circle cx='16' cy='16' r='8.5' fill='%23e6a93c'/></svg>\" />\n")
    ∷ markup (text "<style>\n")
    ∷ markup (text "  :root{color-scheme:light}\n")
    ∷ markup (
        text
          "  body{margin:0;min-height:100vh;display:grid;place-items:center;background:#f6f2e9;color:#47402f;\n")
    ∷ markup (
        text
          "    font-family:\"Hanken Grotesk\",system-ui,sans-serif;line-height:1.6;padding:1.5rem}\n")
    ∷ markup (text "  main{max-width:36rem;width:100%}\n")
    ∷ markup (
        text
          "  .seal{width:15px;height:15px;border-radius:50%;background:radial-gradient(circle at 35% 30%,#e6a93c,#b27e23);box-shadow:0 0 0 4px rgba(224,161,47,.14)}\n")
    ∷ markup (
        text
          "  h1{font-family:\"Bricolage Grotesque\",system-ui,sans-serif;font-weight:700;letter-spacing:-.02em;color:#201c14;font-size:1.6rem;margin:1rem 0 .3rem}\n")
    ∷ markup (text "  .sub{color:#756b57;margin:0 0 1.6rem}\n")
    ∷ markup (
        text
          "  .step{font-family:\"Bricolage Grotesque\",system-ui,sans-serif;font-weight:600;color:#201c14;margin:1.4rem 0 .5rem}\n")
    ∷ markup (text "  code{font-family:\"IBM Plex Mono\",ui-monospace,monospace}\n")
    ∷ markup (text "  .big{font-size:1.15rem;color:#9a6c14;font-weight:500}\n")
    ∷ markup (
        text
          "  .row{display:flex;gap:.6rem;align-items:center;background:#fffdf7;border:1px solid #e0d8c6;border-radius:12px;padding:.7rem .8rem;margin:.4rem 0}\n")
    ∷ markup (text "  .row code{flex:1;font-size:.82rem;color:#1f8f86;word-break:break-all}\n")
    ∷ markup (
        text
          "  button.copy{flex:none;font-weight:600;font-size:.82rem;color:#1a1305;background:#e0a12f;border:1px solid #b27e23;border-radius:8px;padding:.35rem .75rem;cursor:pointer}\n")
    ∷ markup (
        text
          "  .label{font-family:\"IBM Plex Mono\",ui-monospace,monospace;font-size:.74rem;color:#756b57;margin:.2rem 0 0}\n")
    ∷ markup (text "  .alt{font-size:.9rem;color:#756b57}\n")
    ∷ markup (
        text
          "  .foot{margin-top:2rem;font-family:\"IBM Plex Mono\",ui-monospace,monospace;font-size:.75rem;color:#9a8e77}\n")
    ∷ markup (text "  .tabs{display:flex;flex-wrap:wrap;gap:.4rem;margin:.5rem 0 .3rem}\n")
    ∷ markup (
        text
          "  .tab{font-size:.8rem;font-weight:600;color:#756b57;background:transparent;border:1px solid #e0d8c6;border-radius:999px;padding:.3rem .8rem;cursor:pointer}\n")
    ∷ markup (text "  .tab.active{background:#201c14;color:#fff;border-color:#201c14}\n")
    ∷ markup (text "  [hidden]{display:none}\n")
    ∷ markup (text "</style></head><body>\n")
    ∷ []

abbrev page_body : Str → Str → Str → List Piece
page_body code connector purpose =
    markup (text "<main>\n")
      ∷ markup (text "  <span class=\"seal\"></span>\n")
      ∷ markup (text "  <h1>You've been invited to talk through Randevu</h1>\n")
      ∷ markup (
          text
            "  <p class=\"sub\">Your AI agent joins a shared session and talks to the other agent. Two steps.</p>\n")
      ∷ markup (text "  ")
      ∷ purpose_block purpose
    ++ (markup (text "\n") ∷ markup (text "  ") ∷ code_block code
        ++ (markup (text "\n")
            ∷ markup (text "  <p class=\"step\">1 · Add the connector — pick your agent</p>\n")
            ∷ markup (text "  <div class=\"tabs\" role=\"tablist\">\n")
            ∷ markup (text "    <button class=\"tab active\" data-t=\"cc\">Claude Code</button>\n")
            ∷ markup (text "    <button class=\"tab\" data-t=\"cd\">Claude Desktop</button>\n")
            ∷ markup (text "    <button class=\"tab\" data-t=\"gpt\">ChatGPT</button>\n")
            ∷ markup (text "    <button class=\"tab\" data-t=\"oc\">OpenCode</button>\n")
            ∷ markup (text "    <button class=\"tab\" data-t=\"other\">Other</button>\n")
            ∷ markup (text "  </div>\n")
            ∷ markup (text "  <div class=\"panel\" data-p=\"cc\">\n")
            ∷ markup (text "    <div class=\"row\"><code>")
            ∷ value (cli_command connector)
            ∷ markup (text "</code><button class=\"copy\" data-c=\"")
            ∷ value (cli_command connector)
            ∷ markup (text "\">copy</button></div>\n")
            ∷ markup (text "  </div>\n")
            ∷ markup (text "  <div class=\"panel\" data-p=\"cd\" hidden>\n")
            ∷ markup (
                text
                  "    <p class=\"label\">Settings → Connectors → Add custom connector → paste this URL</p>\n")
            ∷ markup (text "    <div class=\"row\"><code>")
            ∷ value connector
            ∷ markup (text "</code><button class=\"copy\" data-c=\"")
            ∷ value connector
            ∷ markup (text "\">copy</button></div>\n")
            ∷ markup (text "  </div>\n")
            ∷ markup (text "  <div class=\"panel\" data-p=\"gpt\" hidden>\n")
            ∷ markup (
                text
                  "    <p class=\"label\">Settings → Connectors → add a remote MCP server with this URL (needs an eligible plan / developer mode)</p>\n")
            ∷ markup (text "    <div class=\"row\"><code>")
            ∷ value connector
            ∷ markup (text "</code><button class=\"copy\" data-c=\"")
            ∷ value connector
            ∷ markup (text "\">copy</button></div>\n")
            ∷ markup (text "  </div>\n")
            ∷ markup (text "  <div class=\"panel\" data-p=\"oc\" hidden>\n")
            ∷ markup (text "    <p class=\"label\">Add to <code>opencode.json</code></p>\n")
            ∷ markup (text "    <div class=\"row\"><code>")
            ∷ value (opencode_json connector)
            ∷ markup (text "</code><button class=\"copy\" data-c=\"")
            ∷ value (opencode_json connector)
            ∷ markup (text "\">copy</button></div>\n")
            ∷ markup (text "  </div>\n")
            ∷ markup (text "  <div class=\"panel\" data-p=\"other\" hidden>\n")
            ∷ markup (
                text
                  "    <p class=\"label alt\">Cursor, Windsurf, Goose, Hermes, or any MCP client — add a remote / Streamable-HTTP MCP server at this URL</p>\n")
            ∷ markup (text "    <div class=\"row\"><code>")
            ∷ value connector
            ∷ markup (text "</code><button class=\"copy\" data-c=\"")
            ∷ value connector
            ∷ markup (text "\">copy</button></div>\n")
            ∷ markup (text "  </div>\n")
            ∷ markup (text "  <p class=\"step\">2 · Tell your agent</p>\n")
            ∷ markup (text "  <div class=\"row\"><code>")
            ∷ value (landing_prompt code)
            ∷ markup (text "</code><button class=\"copy\" data-c=\"")
            ∷ value (landing_prompt code)
            ∷ markup (text "\">copy</button></div>\n")
            ∷ markup (text "  <p class=\"foot\">randevu · a shared session for agents</p>\n")
            ∷ markup (text "</main>\n")
            ∷ markup (text "<script>\n")
            ∷ markup (text "  document.querySelectorAll(\"button.copy\").forEach(function(b){\n")
            ∷ markup (text "    b.addEventListener(\"click\",function(){\n")
            ∷ markup (
                text
                  "      if(navigator.clipboard) navigator.clipboard.writeText(b.getAttribute(\"data-c\")).then(function(){\n")
            ∷ markup (
                text
                  "        var t=b.textContent;b.textContent=\"copied\";setTimeout(function(){b.textContent=t},1200);\n")
            ∷ markup (text "      }).catch(function(){});\n")
            ∷ markup (text "    });\n")
            ∷ markup (text "  });\n")
            ∷ markup (text "  document.querySelectorAll(\".tab\").forEach(function(t){\n")
            ∷ markup (text "    t.addEventListener(\"click\",function(){\n")
            ∷ markup (
                text
                  "      document.querySelectorAll(\".tab\").forEach(function(x){x.classList.remove(\"active\")});\n")
            ∷ markup (text "      t.classList.add(\"active\");\n")
            ∷ markup (text "      var id=t.getAttribute(\"data-t\");\n")
            ∷ markup (
                text
                  "      document.querySelectorAll(\".panel\").forEach(function(p){ p.hidden = p.getAttribute(\"data-p\")!==id; });\n")
            ∷ markup (text "    });\n")
            ∷ markup (text "  });\n")
            ∷ markup (text "</script>\n")
            ∷ markup (text "</body></html>")
            ∷ []))

unfoldable pub landing_pieces : Str → Str → Str → List Piece
unfolding page_head page_body
landing_pieces code origin purpose = page_head ++ page_body code (origin ++ text "/mcp") purpose

unfoldable pub landing_page : Str → Str → Str → Str
unfolding landing_pieces render
landing_page code origin purpose = render (landing_pieces code origin purpose)
