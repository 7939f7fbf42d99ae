-- ===== src/Observability/Monitoring/Page.antt =====
-- packages/wazeko/src/observability/monitoring-server.ts: the fixed parts of the page.
use wazeko.Prelude.{List, [], ◌∷◌, ◌++◌}
use Prim.Native.String.{String}
use wazeko.Text.{Text, codes}

abbrev joined_parts : List String → Text
joined_parts [] = []
joined_parts (part ∷ parts) = codes part ++ joined_parts parts

unfoldable pub page_style : Text
page_style = joined_parts (
    "<!DOCTYPE html>\n" ∷ "<html lang=\"id\">\n" ∷ "<head>\n" ∷ "  <meta charset=\"UTF-8\">\n"
    ∷ "  <meta name=\"viewport\" content=\"width=device-width," ∷ " initial-scale=1.0\">\n"
    ∷ "  <title>Wazeko WhatsApp Auth & Monitor</title>\n" ∷ "  <style>\n" ∷ "    :root {\n"
    ∷ "      --bg: #0d1117;\n" ∷ "      --card: #161b22;\n" ∷ "      --border: #30363d;\n"
    ∷ "      --text: #c9d1d9;\n" ∷ "      --accent: #238636;\n" ∷ "      --accent-hover: #2ea043;\n"
    ∷ "      --tag-green: #238636;\n" ∷ "      --tag-yellow: #d29922;\n" ∷ "    }\n"
    ∷ "    body {\n" ∷ "      font-family: -apple-system, BlinkMacSystemFont, \"Segoe UI\","
    ∷ " Roboto, Helvetica, Arial, sans-serif;\n" ∷ "      background: var(--bg);\n"
    ∷ "      color: var(--text);\n" ∷ "      display: flex;\n" ∷ "      flex-direction: column;\n"
    ∷ "      align-items: center;\n" ∷ "      justify-content: center;\n"
    ∷ "      min-height: 100vh;\n" ∷ "      margin: 0;\n" ∷ "      padding: 20px;\n"
    ∷ "      box-sizing: border-box;\n" ∷ "    }\n" ∷ "    .container {\n"
    ∷ "      background: var(--card);\n" ∷ "      border: 1px solid var(--border);\n"
    ∷ "      border-radius: 12px;\n" ∷ "      padding: 32px;\n" ∷ "      max-width: 480px;\n"
    ∷ "      width: 100%;\n" ∷ "      box-shadow: 0 8px 24px rgba(0,0,0,0.5);\n"
    ∷ "      text-align: center;\n" ∷ "    }\n" ∷ "    h1 {\n" ∷ "      margin-top: 0;\n"
    ∷ "      font-size: 1.5rem;\n" ∷ "      color: #58a6ff;\n" ∷ "    }\n" ∷ "    .badge {\n"
    ∷ "      display: inline-block;\n" ∷ "      padding: 4px 12px;\n"
    ∷ "      border-radius: 20px;\n" ∷ "      font-size: 0.85rem;\n" ∷ [])

unfoldable pub page_header : Text
page_header = joined_parts (
    "      font-weight: 600;\n" ∷ "      background: #21262d;\n"
    ∷ "      border: 1px solid var(--border);\n" ∷ "      margin-bottom: 20px;\n" ∷ "    }\n"
    ∷ "    .badge.connected { color: #3fb950; border-color: #238636; }\n"
    ∷ "    .badge.authenticating { color: #d29922; border-color: #9e6a03; }\n"
    ∷ "    .badge.disconnected { color: #f85149; border-color: #da3633; }\n" ∷ "    .qr-box {\n"
    ∷ "      background: #ffffff;\n" ∷ "      padding: 16px;\n" ∷ "      border-radius: 8px;\n"
    ∷ "      display: inline-block;\n" ∷ "      margin: 16px 0;\n" ∷ "      min-width: 256px;\n"
    ∷ "      min-height: 256px;\n" ∷ "      box-sizing: border-box;\n" ∷ "    }\n"
    ∷ "    .qr-text {\n" ∷ "      word-break: break-all;\n" ∷ "      font-family: monospace;\n"
    ∷ "      font-size: 0.8rem;\n" ∷ "      color: #8b949e;\n" ∷ "      background: #0d1117;\n"
    ∷ "      padding: 12px;\n" ∷ "      border-radius: 6px;\n" ∷ "      max-height: 80px;\n"
    ∷ "      overflow-y: auto;\n" ∷ "    }\n" ∷ "    .instructions {\n"
    ∷ "      font-size: 0.9rem;\n" ∷ "      color: #8b949e;\n" ∷ "      line-height: 1.5;\n"
    ∷ "      text-align: left;\n" ∷ "      margin-top: 20px;\n" ∷ "    }\n"
    ∷ "    .instructions ol { padding-left: 20px; margin: 8px 0; }\n" ∷ "  </style>\n"
    ∷ "  <script src=\"https://cdn.jsdelivr.net/npm/qrcode@1.5.3/build/qrcode"
    ∷ ".min.js\"></script>\n" ∷ "</head>\n" ∷ "<body>\n" ∷ "  <div class=\"container\">\n"
    ∷ "    <h1>Wazeko WhatsApp Engine</h1>\n" ∷ [])

unfoldable pub badge_start : Text
badge_start = joined_parts ("    <div id=\"statusBadge\" class=\"badge " ∷ [])

unfoldable pub badge_label : Text
badge_label = joined_parts ("\">Status: " ∷ [])

unfoldable pub badge_end : Text
badge_end = joined_parts ("</div>\n" ∷ "    \n" ∷ "    <div id=\"qrContainer\">\n" ∷ "      " ∷ [])

unfoldable pub connected_box : Text
connected_box = joined_parts (
    "<div style=\"color: #3fb950; padding: 40px 0; font-size: 1.2rem;"
    ∷ " font-weight: 600;\">✓ WhatsApp Terhubung!</div>" ∷ [])

unfoldable pub canvas_box : Text
canvas_box = joined_parts ("<canvas id=\"qrCanvas\" class=\"qr-box\"></canvas>" ∷ [])

unfoldable pub instructions : Text
instructions = joined_parts (
    "\n" ∷ "    </div>\n" ∷ "\n" ∷ "    <div class=\"instructions\">\n"
    ∷ "      <strong>Cara Menghubungkan:</strong>\n" ∷ "      <ol>\n"
    ∷ "        <li>Buka WhatsApp di Smartphone Anda</li>\n"
    ∷ "        <li>Buka <b>Pengaturan</b> / <b>Titik Tiga</b> > <b>Perangkat"
    ∷ " Tertaut</b></li>\n" ∷ "        <li>Pilih <b>Tautkan Perangkat</b> lalu pindai kode QR di"
    ∷ " atas</li>\n" ∷ "      </ol>\n" ∷ "    </div>\n" ∷ "\n"
    ∷ "    <div style=\"margin-top: 16px;\">\n"
    ∷ "      <a href=\"/health\" style=\"color: #58a6ff; font-size: 0.85rem;"
    ∷ " text-decoration: none; margin-right: 12px;\">📊 Health API</a>\n"
    ∷ "      <a href=\"/metrics\" style=\"color: #58a6ff; font-size:"
    ∷ " 0.85rem; text-decoration: none;\">📈 Metrics API</a>\n" ∷ "    </div>\n" ∷ "  </div>\n"
    ∷ "\n" ∷ "  <script>\n" ∷ [])

unfoldable pub script_start : Text
script_start = joined_parts ("    let currentRaw = \"" ∷ [])

unfoldable pub script_draw : Text
script_draw = joined_parts (
    "\";\n" ∷ "    \n" ∷ "    function drawQr(raw) {\n"
    ∷ "      const canvas = document.getElementById(\"qrCanvas\");\n"
    ∷ "      if (!canvas || !raw) return;\n"
    ∷ "      QRCode.toCanvas(canvas, raw, { width: 256, margin: 1 }," ∷ " function (error) {\n"
    ∷ "        if (error) console.error(error);\n" ∷ "      });\n" ∷ "    }\n" ∷ "\n"
    ∷ "    if (currentRaw) {\n" ∷ "      drawQr(currentRaw);\n" ∷ "    }\n" ∷ "\n" ∷ [])

unfoldable pub script_poll : Text
script_poll = joined_parts (
    "    // Auto-polling state & QR code every 2 seconds\n" ∷ "    setInterval(async () => {\n"
    ∷ "      try {\n" ∷ "        const res = await fetch(\"/api/qr\");\n"
    ∷ "        const data = await res.json();\n"
    ∷ "        const badge = document.getElementById(\"statusBadge\");\n" ∷ "        if (badge) {\n"
    ∷ "          badge.className = \"badge \" + data.state;\n"
    ∷ "          badge.innerText = \"Status: \" + data.state.toUpperCase();\n" ∷ "        }\n"
    ∷ "\n" ∷ "        if (data.state === \"connected\") {\n"
    ∷ "          document.getElementById(\"qrContainer\").innerHTML = '<div"
    ∷ " style=\"color: #3fb950; padding: 40px 0; font-size: 1.2rem;"
    ∷ " font-weight: 600;\">✓ WhatsApp Terhubung!</div>';\n"
    ∷ "        } else if (data.qr && data.qr !== currentRaw) {\n"
    ∷ "          currentRaw = data.qr;\n" ∷ "          drawQr(data.qr);\n" ∷ "        }\n"
    ∷ "      } catch (e) {}\n" ∷ "    }, 2000);\n" ∷ "  </script>\n" ∷ "</body>\n" ∷ "</html>" ∷ [])
